-- ===== src/Vblank/Examples.antt =====
-- Tests of the vblank queue, and the properties at a concrete queue.
use termux_x11_extra.Base.{ℕ, ◌+◌, ◌≡◌, refl, true, List, [], ◌∷◌, map, arith}
use termux_x11_extra.Vblank.{
  Notice, Present, Call, queue, abort, frame, flipped, run, perform_vblanks,
}
use termux_x11_extra.Vblank.Perform.{frames}
use termux_x11_extra.Vblank.Conserve.{pending, notified, asked_all, run-count, frames-notified}

abbrev waiting : Present
waiting = record {
  queue = record { id = 7; msc = 12 } ∷ record { id = 8; msc = 10 } ∷ [];
  current_msc = 10;
}

abbrev clock : ℕ → ℕ
clock n = 1000 + n

due_now : map (λ (e : Notice). e.id) (perform_vblanks clock waiting).1 ≡ 8 ∷ []
unfolding perform_vblanks
due_now = refl

abbrev calls : List Call
calls = queue true 9 11 ∷ abort 7 ∷ frame clock ∷ flipped 5 0 30 ∷ []

after_calls : map (λ (e : Notice). e.id) (run waiting calls).1 ≡ 9 ∷ 8 ∷ 5 ∷ []
unfolding run
after_calls = refl

run-count_example :
    let (p', notices, freed) = run waiting calls in
    pending 7 p'.queue + notified 7 notices + pending 7 freed
    ≡ pending 7 waiting.queue + asked_all 7 calls
run-count_example = run-count 7 waiting calls

frames-notified_example : notified 7 (frames (clock ∷ clock ∷ []) waiting).1 ≡ 1
frames-notified_example = frames-notified 7 clock (clock ∷ []) waiting (omega arith) (omega arith)
