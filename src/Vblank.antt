-- ===== src/Vblank.antt =====
-- The Present backend of app/src/main/cpp/lorie/InitOutput.c, lines 731 to 822: the queue of vblank
-- requests in `pvfb->vblank_queue`, and the frame counter `pvfb->current_msc`.
-- A call of `present_event_notify`, which is not the repository's, is a value of `Notice`; that
-- function is taken to leave the queue alone while the loop of loriePerformVblanks runs.
pub mod Perform
pub mod Conserve
mod Examples
use termux_x11_extra.Base.{
  ℕ, ◌+◌, ◌%◌, ◌^◌, min, Bool, true, false, List, [], ◌∷◌, ◌++◌, leb, ◌==◌, if◌then◌else◌,
}

-- `struct vblank`
pub record Vblank : Type 0 where
  pub id : ℕ
  pub msc : ℕ

pub record Notice : Type 0 where
  pub id : ℕ
  pub ust : ℕ
  pub msc : ℕ

pub record Present : Type 0 where
  pub queue : List Vblank
  pub current_msc : ℕ

-- uint64_t
abbrev pub u64 : ℕ → ℕ
u64 n = n % 2 ^ 64

pub data Status : Type 0 where
  success bad_alloc : Status

-- loriePresentGetUstMsc: the time that GetTimeInMicros returns, and the frame counter.
unfoldable pub get_ust_msc : ℕ → Present → ℕ × ℕ
get_ust_msc now p = (now, p.current_msc)

-- loriePresentQueueVblank; the Boolean says whether `calloc` returned memory. `xorg_list_add` puts
-- the entry in front.
unfoldable pub queue_vblank : Bool → ℕ → ℕ → Present → Present × Status
queue_vblank allocated event_id msc p =
    if allocated
    then (record p { queue = record { id = event_id; msc = msc } ∷ p.queue }, success)
    else (p, bad_alloc)

-- The loop of loriePresentAbortVblank: the queue behind it, and the entries that were freed.
abort_from : ℕ → List Vblank → List Vblank × List Vblank
abort_from id [] = ([], [])
abort_from id (v ∷ q) =
    let (q', freed) = abort_from id q in if v.id == id then (q, v ∷ []) else (v ∷ q', freed)

unfoldable pub abort_vblank : ℕ → Present → Present × List Vblank
unfolding abort_from
abort_vblank id p = let (q, freed) = abort_from id p.queue in (record p { queue = q }, freed)

-- The loop of loriePerformVblanks at the frame `msc`. `clock n` is what the call of GetTimeInMicros
-- returns that is made after `n` earlier ones.
perform_from : (ℕ → ℕ) → ℕ → ℕ → List Vblank → List Vblank × List Notice
perform_from clock n msc [] = ([], [])
perform_from clock n msc (v ∷ q) =
    let (q', notices) = perform_from clock (if leb v.msc msc then n + 1 else n) msc q in
    if leb v.msc msc
    then (q', record { id = v.id; ust = clock n; msc = msc } ∷ notices)
    else (v ∷ q', notices)

unfoldable pub perform_vblanks : (ℕ → ℕ) → Present → Present × List Notice
unfolding perform_from
perform_vblanks clock p =
    let (q, notices) = perform_from clock 0 p.current_msc p.queue in
    (record p { queue = q }, notices)

-- The first lines of lorieRedraw: the counter goes on, and the vblanks that are due are performed.
unfoldable pub next_frame : (ℕ → ℕ) → Present → Present × List Notice
unfolding perform_vblanks
next_frame clock p = perform_vblanks clock (record p { current_msc = u64 (p.current_msc + 1) })

-- loriePresentAfterFlip, but for the damage region that it sets.
unfoldable pub after_flip : ℕ → ℕ → ℕ → Present → Present × List Notice
after_flip event_id ust target_msc p =
    let msc = min (u64 (p.current_msc + 1)) target_msc in
    (record p { current_msc = msc }, record { id = event_id; ust = ust; msc = msc } ∷ [])

-- loriePresentUnflip
unfoldable pub unflip : ℕ → Present → Present × List Notice
unflip event_id p = (p, record { id = event_id; ust = 0; msc = 0 } ∷ [])

-- The calls that reach the backend. `drain` is the call of loriePerformVblanks in
-- lorieRRScreenSetSize.
pub data Call : Type 0 where
  queue : Bool → ℕ → ℕ → Call
  abort : ℕ → Call
  frame : (ℕ → ℕ) → Call
  drain : (ℕ → ℕ) → Call
  flipped : ℕ → ℕ → ℕ → Call
  unflipped : ℕ → Call

-- What a call does: the new state, the notices that it sends, the entries that it drops.
unfoldable pub step : Present → Call → Present × List Notice × List Vblank
unfolding queue_vblank abort_vblank perform_vblanks next_frame after_flip unflip
step p (queue allocated event_id msc) = ((queue_vblank allocated event_id msc p).0, [], [])
step p (abort id) = let (p', freed) = abort_vblank id p in (p', [], freed)
step p (frame clock) = let (p', notices) = next_frame clock p in (p', notices, [])
step p (drain clock) = let (p', notices) = perform_vblanks clock p in (p', notices, [])
step p (flipped event_id ust target_msc) =
    let (p', notices) = after_flip event_id ust target_msc p in (p', notices, [])
step p (unflipped event_id) = let (p', notices) = unflip event_id p in (p', notices, [])

-- Calls one after the other.
unfoldable pub run : Present → List Call → Present × List Notice × List Vblank
unfolding step
run p [] = (p, [], [])
run p (c ∷ calls) =
    let (p', notices, freed) = step p c in
    let (p'', notices', freed') = run p' calls in (p'', notices ++ notices', freed ++ freed')
