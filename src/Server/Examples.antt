-- ===== src/Server/Examples.antt =====
-- Tests of the frame handshake, and the properties at a concrete server and renderer.
use termux_x11_extra.Base.{ℕ, ◌+◌, ◌≤◌, ◌≡◌, refl, arith, true, false, [], ◌∷◌, none, some}
use termux_x11_extra.Base.Int.{pos}
use termux_x11_extra.Buffer.{LorieBuffer, Locking}
use termux_x11_extra.Renderer.{Shared, Renderer, add_buffer, should_wait, attach_to_gl, round}
use termux_x11_extra.Renderer.Examples.{gl, buffer, shared, renderer}
use termux_x11_extra.Server.{Root, Server}
use termux_x11_extra.Server.Frames.{
  World, frame, moved, woken, frames_drawn, granted, credit, frames_drawn-bound,
}
use termux_x11_extra.Server.Delivery.{late-buffer}

abbrev clock : ℕ → ℕ
clock n = n

abbrev locking : Locking
locking = record { ret = pos 0; address = some 900 }

abbrev root_buffer : LorieBuffer
root_buffer = record (buffer 50 1) { locked = true; locked_data = some 800 }

abbrev server : Server
server = record {
  present = record { queue = []; current_msc = 7 };
  damaged = true;
  root = some (record { buffer = some root_buffer; locked = some 800 });
}

abbrev world : World
world = record { server = server; renderer = renderer }

-- Two wakes between two frames of the display draw once.
two_frames :
    frames_drawn
      (woken gl ∷ moved ∷ woken gl ∷ frame clock true locking (pos 0) ∷ woken gl ∷ woken gl ∷ [])
      world
    ≡ 2
unfolding frames_drawn
two_frames = refl

frames_drawn-bound_example :
    frames_drawn (woken gl ∷ frame clock true locking (pos 0) ∷ woken gl ∷ []) world
    ≤ granted (woken gl ∷ frame clock true locking (pos 0) ∷ woken gl ∷ []) + credit renderer
frames_drawn-bound_example =
    frames_drawn-bound (woken gl ∷ frame clock true locking (pos 0) ∷ woken gl ∷ []) world

abbrev root_locked : Root
root_locked = record {
  buffer = some (record root_buffer { locked = true; locked_data = some 900 });
  locked = some 900;
}

abbrev asked : Shared
asked = record shared { wait_for_next_frame = false; draw_requested = true; root_id = 1 }

abbrev missing : Renderer
missing = record renderer { added = [] }

late-buffer_example :
    let (r1, shown, freed) = round gl missing in
    let r2 = add_buffer (buffer 20 2) r1 in
    (shown ≡ none)
    × ((should_wait r1).1 ≡ true)
    × ((should_wait r2).1 ≡ false)
    × ((round gl (should_wait r2).0).1 ≡ some (attach_to_gl gl (buffer 20 2)))
late-buffer_example =
    late-buffer gl gl missing shared (buffer 20 2) refl refl refl refl refl refl refl refl
      (omega arith, tt) refl
