-- ===== src/Server/Frames.antt =====
-- The server's frames and the renderer's rounds together: the handshake over `waitForNextFrame`.
-- A frame callback and a round are one step each. In the program the callback takes no lock, so it
-- can also fall inside a redraw; that interleaving is not an event here.
use termux_x11_extra.Base.{
  ℕ, ◌+◌, ◌≤◌, ◌≡◌, refl, Bool, true, false, List, [], ◌∷◌, Option, none, some, arith,
  if◌then◌else◌, Option-cases, inl, inr,
}
use termux_x11_extra.Base.Int.{ℤ}
use termux_x11_extra.Buffer.{LorieBuffer, Locking}
use termux_x11_extra.Renderer.{
  Shared, Renderer, Gl, find_by_id, add_buffer, attach_added, should_wait, apply_state, or_else,
  redraw_locked, try_redraw, sweep, round, remove_buffer, remove_all, with_surface,
}
use termux_x11_extra.Server.{Server, redraw, move_cursor}

-- The server and the renderer that has mapped its state.
pub record World : Type 0 where
  pub server : Server
  pub renderer : Renderer

pub data Event : Type 0 where
  frame : (ℕ → ℕ) → Bool → Locking → ℤ → Event
  moved : Event
  connected : Option Shared → Event
  added : LorieBuffer → Event
  removed : Gl → ℕ → Event
  all_removed : Gl → Event
  woken : Gl → Event

-- What the server leaves of the shared state; a FatalError ends its part.
abbrev pub after_frame : World → Option (Server × Shared × Bool) → World
after_frame w none = w
after_frame w (some (server, s, signalled)) = record {
  server = server;
  renderer = record w.renderer { state = some s };
}

abbrev pub frame_on : (ℕ → ℕ) → Bool → Locking → ℤ → World → Option Shared → World
frame_on clock alive l ret w none = w
frame_on clock alive l ret w (some s) = after_frame w (redraw clock alive l ret w.server s).1

abbrev pub moved_on : Option Shared → Option Shared
moved_on none = none
moved_on (some s) = some (move_cursor s)

-- rendererThread once it wakes: a round, unless it should wait.
abbrev pub wake : Gl → Renderer × Bool → Renderer × Option LorieBuffer
wake gl (r, true) = (r, none)
wake gl (r, false) = let (r', shown, freed) = round gl r in (r', shown)

-- What an event leaves, and the buffer that is drawn by it. `connected` is rendererSetSharedState.
unfoldable pub step : Event → World → World × Option LorieBuffer
unfolding redraw move_cursor add_buffer remove_buffer remove_all should_wait round
step (frame clock alive l ret) w = (frame_on clock alive l ret w w.renderer.state, none)
step moved w =
    (record w { renderer = record w.renderer { state = moved_on w.renderer.state } }, none)
step (connected state) w = (
  record w { renderer = record w.renderer { pending_state = state; state_changed = true } },
  none,
)
step (added b) w = (record w { renderer = add_buffer b w.renderer }, none)
step (removed gl id) w = (record w { renderer = (remove_buffer gl id w.renderer).0 }, none)
step (all_removed gl) w = (record w { renderer = (remove_all gl w.renderer).0 }, none)
step (woken gl) w =
    let (r, shown) = wake gl (should_wait w.renderer) in (record w { renderer = r }, shown)

abbrev pub one_if : Option LorieBuffer → ℕ
one_if none = 0
one_if (some b) = 1

-- The number of frames that are drawn over the events.
unfoldable pub frames_drawn : List Event → World → ℕ
unfolding step
frames_drawn [] w = 0
frames_drawn (e ∷ events) w = let (w', shown) = step e w in one_if shown + frames_drawn events w'

abbrev pub grants : Event → ℕ
grants (frame clock alive l ret) = 1
grants moved = 0
grants (connected state) = 1
grants (added b) = 0
grants (removed gl id) = 0
grants (all_removed gl) = 0
grants (woken gl) = 0

-- The frames of the display and the new connections.
abbrev pub granted : List Event → ℕ
granted [] = 0
granted (e ∷ events) = grants e + granted events

-- 1 where the renderer may draw before the next frame of the display.
abbrev pub ready : Option Shared → ℕ
ready none = 0
ready (some s) = if s.wait_for_next_frame then 0 else 1

abbrev pub credit : Renderer → ℕ
credit r = ready r.state + (if r.state_changed then 1 else 0)

ready-most : (o : Option Shared) → ready o ≤ 1
ready-most none = omega arith
ready-most (some s) = ground arith

apply_state-credit : (r : Renderer) → credit (apply_state r) ≤ credit r
unfolding apply_state
apply_state-credit r = ground (arith, ready-most (with_surface r.window r.pending_state))

redraw_locked-credit :
    (s : Shared) (r : Renderer)
    → s.wait_for_next_frame ≡ false
    → r.state ≡ some s
    → let (r', shown) = redraw_locked s r in one_if shown + credit r' ≤ credit r
unfolding redraw_locked
redraw_locked-credit s r free is =
    elim (Option-cases
      (or_else (find_by_id r.buffers s.root_id) (find_by_id r.removed s.root_id))) [
        | inl missing ↦ ground arith
        | inr (b, found) ↦ ground arith
      ]

try_redraw-credit :
    (o : Option Shared) (r : Renderer)
    → r.state ≡ o
    → let (r', shown) = try_redraw o r in one_if shown + credit r' ≤ credit r
unfolding try_redraw
try_redraw-credit none r is = omega arith
try_redraw-credit (some s) r is = ground (arith, redraw_locked-credit s r)

round-credit :
    (gl : Gl) (r : Renderer)
    → let (r', shown, freed) = round gl r in one_if shown + credit r' ≤ credit r
unfolding round attach_added sweep
round-credit gl r =
    let r1 = attach_added gl (apply_state r) in
    omega (arith, apply_state-credit r, try_redraw-credit r1.state r1 refl)

wake-credit :
    (gl : Gl) (r : Renderer) (wait : Bool)
    → let (r', shown) = wake gl (r, wait) in one_if shown + credit r' ≤ credit r
wake-credit gl r true = omega arith
wake-credit gl r false = round-credit gl r

should_wait-credit : (r : Renderer) → credit (should_wait r).0 ≡ credit r
unfolding should_wait
should_wait-credit r = ground arith

after_frame-credit :
    (w : World) (o : Option (Server × Shared × Bool))
    → credit (after_frame w o).renderer ≤ 1 + credit w.renderer
after_frame-credit w none = omega arith
after_frame-credit w (some (server, s, signalled)) = omega (arith, ready-most (some s))

frame_on-credit :
    (clock : ℕ → ℕ) (alive : Bool) (l : Locking) (ret : ℤ) (w : World) (o : Option Shared)
    → credit (frame_on clock alive l ret w o).renderer ≤ 1 + credit w.renderer
frame_on-credit clock alive l ret w none = omega arith
frame_on-credit clock alive l ret w (some s) =
    after_frame-credit w (redraw clock alive l ret w.server s).1

moved_on-ready : (o : Option Shared) → ready (moved_on o) ≡ ready o
unfolding move_cursor
moved_on-ready none = refl
moved_on-ready (some s) = refl

step-credit :
    (e : Event) (w : World)
    → let (w', shown) = step e w in one_if shown + credit w'.renderer ≤ grants e + credit w.renderer
unfolding step add_buffer remove_buffer remove_all
step-credit (frame clock alive l ret) w =
    omega (arith, frame_on-credit clock alive l ret w w.renderer.state)
step-credit moved w = omega (arith, moved_on-ready w.renderer.state)
step-credit (connected state) w = ground arith
step-credit (added b) w = ground arith
step-credit (removed gl id) w = ground arith
step-credit (all_removed gl) w = ground arith
step-credit (woken gl) w =
    let (r, wait) = should_wait w.renderer in
    omega (arith, should_wait-credit w.renderer, wake-credit gl r wait)

-- Over any events: the renderer draws at most one frame for each frame of the display and each new
-- connection, one that is pending at the start included, and one more where it could draw at the start.
pub frames_drawn-bound :
    (events : List Event) (w : World) → frames_drawn events w ≤ granted events + credit w.renderer
unfolding frames_drawn
frames_drawn-bound [] w = omega arith
frames_drawn-bound (e ∷ events) w =
    omega (arith, step-credit e w, frames_drawn-bound events (step e w).0)
