-- ===== src/Renderer/Lists.antt =====
-- The buffers that the renderer holds: none is lost or freed twice, and none that is attached to GL
-- is freed outside the renderer thread.
use termux_x11_extra.Base.{
  ℕ, zero, suc, ◌+◌, ◌≡◌, refl, List, [], ◌∷◌, ◌++◌, Option, none, some, arith, ◌==◌, count,
  count-append, ◌≤◌, ◌&&◌, if◌then◌else◌,
}
use termux_x11_extra.Buffer.{LorieBuffer, release}
use termux_x11_extra.Renderer.{
  Shared, Renderer, Gl, after_release, release_id, take_id, drop_address, add_buffer, remove_buffer,
  release_rounds, rounds_all, release_list, push_each, remove_all, attach_to_gl, attach_each,
  attach_added, sweep, apply_state, redraw_locked, try_redraw, round,
}

-- How many of the buffers stand at the address.
abbrev pub at : ℕ → List LorieBuffer → ℕ
at i = count (λ (b : LorieBuffer). b.address == i)

pub at-append : (i : ℕ) (bs cs : List LorieBuffer) → at i (bs ++ cs) ≡ at i bs + at i cs
at-append i bs cs = count-append (λ (b : LorieBuffer). b.address == i) bs cs

abbrev pub held : ℕ → Renderer → ℕ
held i r = at i r.added + at i r.buffers + at i r.removed

after_release-at :
    (i : ℕ) (gl : Gl) (b : LorieBuffer)
    → let (left, gone) = after_release b (release gl.context gl.display b) in
      at i left + at i gone ≡ at i (b ∷ [])
unfolding release
after_release-at i gl b = ground arith

pub release_id-at :
    (i : ℕ) (gl : Gl) (id : ℕ) (bs : List LorieBuffer)
    → at i (release_id gl id bs).0 + at i (release_id gl id bs).1 ≡ at i bs
unfolding release_id
release_id-at i gl id [] = omega arith
release_id-at i gl id (b ∷ bs) =
    let (left, gone) = after_release b (release gl.context gl.display b) in
    ground (arith, release_id-at i gl id bs, after_release-at i gl b, at-append i left bs)

pub take_id-at :
    (i id : ℕ) (bs : List LorieBuffer) → at i (take_id id bs).0 + at i (take_id id bs).1 ≡ at i bs
unfolding take_id
take_id-at i id [] = omega arith
take_id-at i id (b ∷ bs) = ground (arith, take_id-at i id bs)

release_rounds-at :
    (i fuel : ℕ) (gl : Gl) (bs : List LorieBuffer)
    → at i (release_rounds fuel gl bs).0 + at i (release_rounds fuel gl bs).1 ≡ at i bs
unfolding release_rounds
release_rounds-at i zero gl bs = omega arith
release_rounds-at i (suc fuel) gl [] = omega arith
release_rounds-at i (suc fuel) gl (b ∷ bs) =
    let (left, gone) = after_release b (release gl.context gl.display b) in
    let freed = (release_rounds fuel gl (left ++ bs)).1 in
    ground (
      arith,
      release_rounds-at i fuel gl (left ++ bs),
      after_release-at i gl b,
      at-append i left bs,
      at-append i gone freed,
    )

pub push_each-at : (i : ℕ) (bs cs : List LorieBuffer) → at i (push_each bs cs) ≡ at i bs + at i cs
push_each-at i [] cs = omega arith
push_each-at i (b ∷ bs) cs = ground (arith, push_each-at i bs (b ∷ cs))

pub attach_each-at :
    (i : ℕ) (gl : Gl) (bs cs : List LorieBuffer) → at i (attach_each gl bs cs) ≡ at i bs + at i cs
attach_each-at i gl [] cs = omega arith
attach_each-at i gl (b ∷ bs) cs = ground (arith, attach_each-at i gl bs (attach_to_gl gl b ∷ cs))

-- A call of the activity's threads, or a round of the renderer thread.
pub data Call : Type 0 where
  adding : LorieBuffer → Call
  removing : ℕ → Call
  removing_all : Call
  rounding : Call

-- What a call does, and the buffers that it frees.
unfoldable pub step : Gl → Call → Renderer → Renderer × List LorieBuffer
unfolding add_buffer remove_buffer remove_all round
step gl (adding b) r = (add_buffer b r, [])
step gl (removing id) r = remove_buffer gl id r
step gl removing_all r = remove_all gl r
step gl rounding r = let (r', shown, freed) = round gl r in (r', freed)

unfoldable pub run : Gl → List Call → Renderer → Renderer × List LorieBuffer
unfolding step
run gl [] r = (r, [])
run gl (c ∷ calls) r =
    let (r', freed) = step gl c r in let (r'', freed') = run gl calls r' in (r'', freed ++ freed')

-- Whether the call adds a buffer at the address, where none is held.
abbrev pub given : ℕ → Call → Renderer → ℕ
given i (adding b) r = if b.address == i && held i r == 0 then 1 else 0
given i (removing id) r = 0
given i removing_all r = 0
given i rounding r = 0

abbrev pub given_all : ℕ → Gl → List Call → Renderer → ℕ
given_all i gl [] r = 0
given_all i gl (c ∷ calls) r = given i c r + given_all i gl calls (step gl c r).0

pub drop_address-at :
    (i a : ℕ) (bs : List LorieBuffer) → at i (drop_address a bs) ≡ (if a == i then 0 else at i bs)
drop_address-at i a [] = ground arith
drop_address-at i a (b ∷ bs) = ground (arith, drop_address-at i a bs)

add_buffer-held :
    (i : ℕ) (b : LorieBuffer) (r : Renderer)
    → held i r ≤ 1
    → held i (add_buffer b r) ≡ held i r + (if b.address == i && held i r == 0 then 1 else 0)
unfolding add_buffer
add_buffer-held i b r once = ground (
  arith,
  drop_address-at i b.address r.added,
  drop_address-at i b.address r.buffers,
  drop_address-at i b.address r.removed,
)

pub release_list-at :
    (i : ℕ) (gl : Gl) (bs : List LorieBuffer)
    → at i (release_list gl bs).0 + at i (release_list gl bs).1 ≡ at i bs
unfolding release_list
release_list-at i gl bs = release_rounds-at i (rounds_all bs) gl bs

redraw_locked-held : (i : ℕ) (s : Shared) (r : Renderer) → held i (redraw_locked s r).0 ≡ held i r
unfolding redraw_locked
redraw_locked-held i s r = ground arith

pub try_redraw-held :
    (i : ℕ) (o : Option Shared) (r : Renderer) → held i (try_redraw o r).0 ≡ held i r
unfolding try_redraw
try_redraw-held i none r = refl
try_redraw-held i (some s) r = ground (arith, redraw_locked-held i s r)

apply_state-held : (i : ℕ) (r : Renderer) → held i (apply_state r) ≡ held i r
unfolding apply_state
apply_state-held i r = ground arith

round-held :
    (i : ℕ) (gl : Gl) (r : Renderer)
    → let (r', shown, freed) = round gl r in held i r' + at i freed ≡ held i r
unfolding round attach_added sweep
round-held i gl r =
    let r1 = attach_added gl (apply_state r) in
    let r2 = (try_redraw r1.state r1).0 in
    omega (
      arith,
      apply_state-held i r,
      attach_each-at i gl (apply_state r).added (apply_state r).buffers,
      try_redraw-held i r1.state r1,
      release_list-at i gl r2.removed,
    )

step-held :
    (i : ℕ) (gl : Gl) (c : Call) (r : Renderer)
    → held i r ≤ 1
    → let (r', freed) = step gl c r in held i r' + at i freed ≡ held i r + given i c r
unfolding step remove_buffer remove_all
step-held i gl (adding b) r once = omega (arith, add_buffer-held i b r once)
step-held i gl (removing id) r once = ground (
  arith,
  release_id-at i gl id r.added,
  take_id-at i id r.buffers,
  at-append i (take_id id r.buffers).1 r.removed,
)
step-held i gl removing_all r once =
    omega (arith, release_list-at i gl r.added, push_each-at i r.buffers r.removed)
step-held i gl rounding r once = omega (arith, round-held i gl r)

given-once : (i : ℕ) (gl : Gl) (c : Call) (r : Renderer) → held i r ≤ 1 → held i r + given i c r ≤ 1
given-once i gl (adding b) r once = ground arith
given-once i gl (removing id) r once = omega arith
given-once i gl removing_all r once = omega arith
given-once i gl rounding r once = omega arith

-- Over any calls, for every address that is held once at most at the start: it is held once at most at
-- the end; and the buffers there that the renderer holds at the end and those that were freed are as
-- many as it held at the start and was given while it held none there. A buffer that is added while
-- it is held is moved.
pub run-held :
    (i : ℕ) (gl : Gl) (calls : List Call) (r : Renderer)
    → held i r ≤ 1
    → let (r', freed) = run gl calls r in
      (held i r' ≤ 1) × (held i r' + at i freed ≡ held i r + given_all i gl calls r)
unfolding run
run-held i gl [] r once = (once, omega arith)
run-held i gl (c ∷ calls) r once =
    let (r', freed) = step gl c r in
    let one = step-held i gl c r once in
    let (still, all) = run-held i gl calls r' (omega (arith, one, given-once i gl c r once)) in
    (still, omega (arith, one, all, at-append i freed (run gl calls r').1))
