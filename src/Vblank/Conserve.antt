-- ===== src/Vblank/Conserve.antt =====
-- No vblank request of a client is lost, answered twice or made up.
use termux_x11_extra.Base.{
  ℕ, ◌+◌, ◌^◌, ◌≤◌, ◌<◌, ◌≡◌, refl, Bool, List, [], ◌∷◌, arith, ◌==◌, if◌then◌else◌, All, keep,
  length, count, count-append,
}
use termux_x11_extra.Vblank.{
  Vblank, Notice, Present, Call, queue, abort, frame, drain, flipped, unflipped, u64, abort_from,
  perform_from, perform_vblanks, next_frame, step, run,
}
use termux_x11_extra.Vblank.Perform.{IsLater, perform_vblanks-keep, frames, frames-IsLater}

abbrev pub pending : ℕ → List Vblank → ℕ
pending i = count (λ (v : Vblank). v.id == i)

abbrev pub notified : ℕ → List Notice → ℕ
notified i = count (λ (e : Notice). e.id == i)

-- How many answers for the event `i` a call asks for.
abbrev pub asked : ℕ → Call → ℕ
asked i (queue allocated event_id msc) = if allocated then (if event_id == i then 1 else 0) else 0
asked i (abort id) = 0
asked i (frame clock) = 0
asked i (drain clock) = 0
asked i (flipped event_id ust target_msc) = if event_id == i then 1 else 0
asked i (unflipped event_id) = if event_id == i then 1 else 0

abbrev pub asked_all : ℕ → List Call → ℕ
asked_all i [] = 0
asked_all i (c ∷ calls) = asked i c + asked_all i calls

abort_from-count :
    (i id : ℕ) (q : List Vblank)
    → pending i (abort_from id q).0 + pending i (abort_from id q).1 ≡ pending i q
unfolding abort_from
abort_from-count i id [] = omega arith
abort_from-count i id (v ∷ q) = ground (arith, abort_from-count i id q)

perform_from-count :
    (clock : ℕ → ℕ) (msc i n : ℕ) (q : List Vblank)
    → pending i (perform_from clock n msc q).0 + notified i (perform_from clock n msc q).1
      ≡ pending i q
unfolding perform_from
perform_from-count clock msc i n [] = omega arith
perform_from-count clock msc i n (v ∷ q) =
    ground (arith, perform_from-count clock msc i n q, perform_from-count clock msc i (n + 1) q)

step-count :
    (i : ℕ) (p : Present) (c : Call)
    → let (p', notices, freed) = step p c in
      pending i p'.queue + notified i notices + pending i freed ≡ pending i p.queue + asked i c
unfolding step
step-count i p (queue allocated event_id msc) = ground arith
step-count i p (abort id) = omega (arith, abort_from-count i id p.queue)
step-count i p (frame clock) =
    omega (arith, perform_from-count clock (u64 (p.current_msc + 1)) i 0 p.queue)
step-count i p (drain clock) = omega (arith, perform_from-count clock p.current_msc i 0 p.queue)
step-count i p (flipped event_id ust target_msc) = ground arith
step-count i p (unflipped event_id) = ground arith

-- Over any calls, for every event: the notices sent, the requests aborted and those still queued
-- are as many as the requests queued at the start and made by the calls.
pub run-count :
    (i : ℕ) (p : Present) (calls : List Call)
    → let (p', notices, freed) = run p calls in
      pending i p'.queue + notified i notices + pending i freed
      ≡ pending i p.queue + asked_all i calls
unfolding run
run-count i p [] = omega arith
run-count i p (c ∷ calls) =
    let p' = (step p c).0 in
    omega (
      arith,
      step-count i p c,
      run-count i p' calls,
      count-append (λ (e : Notice). e.id == i) (step p c).1 (run p' calls).1,
      count-append (λ (v : Vblank). v.id == i) (step p c).2 (run p' calls).2,
    )

frames-count :
    (i : ℕ) (clocks : List (ℕ → ℕ)) (p : Present)
    → pending i (frames clocks p).0.queue + notified i (frames clocks p).1 ≡ pending i p.queue
unfolding frames next_frame
frames-count i [] p = omega arith
frames-count i (clock ∷ clocks) p =
    let p' = (next_frame clock p).0 in
    omega (
      arith,
      perform_from-count clock (u64 (p.current_msc + 1)) i 0 p.queue,
      frames-count i clocks p',
      count-append (λ (e : Notice). e.id == i) (next_frame clock p).1 (frames clocks p').1,
    )

abbrev pub IsBy : ℕ → Vblank → Type 0
IsBy msc v = v.msc ≤ msc

keep-IsBy :
    (msc : ℕ) (f : Vblank → Bool) (q : List Vblank) → All (IsBy msc) q → All (IsBy msc) (keep f q)
keep-IsBy msc f [] h = tt
keep-IsBy msc f (v ∷ q) h = ground (arith, keep-IsBy msc f q h.1)

frames-IsBy :
    (msc : ℕ) (clocks : List (ℕ → ℕ)) (p : Present)
    → All (IsBy msc) p.queue
    → All (IsBy msc) (frames clocks p).0.queue
unfolding frames next_frame
frames-IsBy msc [] p h = h
frames-IsBy msc (clock ∷ clocks) p h =
    let counted = record p { current_msc = u64 (p.current_msc + 1) } in
    frames-IsBy msc clocks (perform_vblanks clock counted).0
      (rw ((perform_vblanks-keep clock counted).0) (keep-IsBy msc _ p.queue h))

none-left : (i msc : ℕ) (q : List Vblank) → All (IsBy msc) q → All (IsLater msc) q → pending i q ≡ 0
none-left i msc [] by later = refl
none-left i msc (v ∷ q) by later = absurd (omega arith)

-- Where every queued request asks for a frame up to the last of the next ones, and nothing is
-- aborted or queued meanwhile, those frames answer every request: for each event as many notices are
-- sent as there were requests.
pub frames-notified :
    (i : ℕ) (clock : ℕ → ℕ) (clocks : List (ℕ → ℕ)) (p : Present)
    → p.current_msc + length (clock ∷ clocks) < 2 ^ 64
    → All (IsBy (p.current_msc + length (clock ∷ clocks))) p.queue
    → notified i (frames (clock ∷ clocks) p).1 ≡ pending i p.queue
frames-notified i clock clocks p fits by =
    let last = p.current_msc + length (clock ∷ clocks) in
    omega (
      arith,
      frames-count i (clock ∷ clocks) p,
      none-left i last (frames (clock ∷ clocks) p).0.queue (frames-IsBy last (clock ∷ clocks) p by)
          (frames-IsLater clock clocks p fits).1,
    )
