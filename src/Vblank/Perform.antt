-- ===== src/Vblank/Perform.antt =====
-- What loriePerformVblanks does to the queue, and what runs of frames do.
use termux_x11_extra.Base.{
  ℕ, suc, ◌+◌, ◌^◌, ◌<◌, ◌≡◌, refl, Bool, List, [], ◌∷◌, ◌++◌, map, arith, leb, All, keep, length,
  not,
}
use termux_x11_extra.Vblank.{
  Vblank, Notice, Present, u64, perform_from, perform_vblanks, next_frame,
}

abbrev pub is_due : ℕ → Vblank → Bool
is_due msc v = leb v.msc msc

module _ (clock : ℕ → ℕ) (msc : ℕ) where
  perform_from-keep :
      (n : ℕ) (q : List Vblank)
      → ((perform_from clock n msc q).0 ≡ keep (λ v. not (is_due msc v)) q)
        × (map (λ (e : Notice). e.id) (perform_from clock n msc q).1
            ≡ map (λ (v : Vblank). v.id) (keep (is_due msc) q))
        × All (λ (e : Notice). e.msc ≡ msc) (perform_from clock n msc q).1
  unfolding perform_from
  perform_from-keep n [] = (refl, refl, tt)
  perform_from-keep n (v ∷ q) = ground (arith, perform_from-keep n q, perform_from-keep (n + 1) q)

-- One pass notifies exactly the entries whose frame has come, in the order of the queue and with
-- the current frame number, and keeps exactly the others, in their order. The counter stays.
pub perform_vblanks-keep :
    (clock : ℕ → ℕ) (p : Present)
    → let (p', notices) = perform_vblanks clock p in
      (p'.queue ≡ keep (λ v. not (is_due p.current_msc v)) p.queue)
      × (map (λ (e : Notice). e.id) notices
          ≡ map (λ (v : Vblank). v.id) (keep (is_due p.current_msc) p.queue))
      × All (λ (e : Notice). e.msc ≡ p.current_msc) notices
      × (p'.current_msc ≡ p.current_msc)
unfolding perform_vblanks
perform_vblanks-keep clock p =
    let (kept, ids, stamps) = perform_from-keep clock p.current_msc 0 p.queue in
    (kept, ids, stamps, refl)

-- Frames one after the other, with the clock readings of each.
unfoldable pub frames : List (ℕ → ℕ) → Present → Present × List Notice
frames [] p = (p, [])
frames (clock ∷ clocks) p =
    let (p', notices) = next_frame clock p in
    let (p'', notices') = frames clocks p' in (p'', notices ++ notices')

abbrev pub IsLater : ℕ → Vblank → Type 0
IsLater msc v = msc < v.msc

All-keep : (msc : ℕ) (q : List Vblank) → All (IsLater msc) (keep (λ v. not (is_due msc v)) q)
All-keep msc [] = tt
All-keep msc (v ∷ q) = ground (arith, All-keep msc q)

next_frame-IsLater :
    (clock : ℕ → ℕ) (p : Present)
    → p.current_msc + 1 < 2 ^ 64
    → ((next_frame clock p).0.current_msc ≡ p.current_msc + 1)
      × All (IsLater (p.current_msc + 1)) (next_frame clock p).0.queue
unfolding next_frame
next_frame-IsLater clock p h =
    let counted : u64 (p.current_msc + 1) ≡ p.current_msc + 1 = omega arith in
    (
      counted,
      rw (counted, (perform_from-keep clock (p.current_msc + 1) 0 p.queue).0)
          (All-keep (p.current_msc + 1) p.queue),
    )

-- After frames that the counter has room for, the counter has advanced by their number, and every
-- request that is still queued asks for a later frame.
pub frames-IsLater :
    (clock : ℕ → ℕ) (clocks : List (ℕ → ℕ)) (p : Present)
    → p.current_msc + length (clock ∷ clocks) < 2 ^ 64
    → ((frames (clock ∷ clocks) p).0.current_msc ≡ p.current_msc + length (clock ∷ clocks))
      × All (IsLater (p.current_msc + length (clock ∷ clocks))) (frames (clock ∷ clocks) p).0.queue
unfolding frames
frames-IsLater clock [] p h = next_frame-IsLater clock p h
frames-IsLater clock (clock' ∷ clocks) p h =
    let (counted, _) = next_frame-IsLater clock p (omega arith) in
    let p' = (next_frame clock p).0 in
    let sum : p.current_msc + suc (suc (length clocks)) ≡ p'.current_msc + suc (length clocks) =
      omega arith in
    rw sum (frames-IsLater clock' clocks p' (omega arith))
