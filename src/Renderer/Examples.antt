-- ===== src/Renderer/Examples.antt =====
-- Tests of the renderer's lists, and the properties at concrete buffers.
use termux_x11_extra.Base.{ℕ, ◌+◌, ◌≤◌, ◌≡◌, refl, true, false, [], ◌∷◌, none, some, map, arith}
use termux_x11_extra.Base.Int.{pos, negsuc}
use termux_x11_extra.Buffer.{LorieBuffer, hardware, b8g8r8a8}
use termux_x11_extra.Renderer.{Shared, Renderer, Gl, remove_buffer, remove_all, round, release_list}
use termux_x11_extra.Renderer.Sweep.{release_list-empty}
use termux_x11_extra.Renderer.Lists.{
  at, held, adding, removing, removing_all, rounding, run, given_all, run-held,
}
use termux_x11_extra.Renderer.Windows.{given, window_surface, Windows, Egl, refresh}
use termux_x11_extra.Renderer.Attached.{attached, remove-attached}

abbrev pub gl : Gl
gl = record { context = true; display = true; texture = λ a. a; image = λ h. some h }

abbrev pub buffer : ℕ → ℕ → LorieBuffer
buffer address id = record {
  address = address;
  refcount = 1;
  desc = record {
    width = pos 2;
    height = pos 3;
    stride = pos 2;
    format = b8g8r8a8;
    type = hardware;
    id = id;
    buffer = some 8000;
    pixels = none;
  };
  locked = false;
  locked_data = none;
  fd = negsuc 0;
  size = 0;
  offset = 0;
  texture = 0;
  image = none;
}

abbrev pub shared : Shared
shared = record {
  draw_requested = true;
  wait_for_next_frame = false;
  surface_available = true;
  cursor_moved = false;
  cursor_updated = false;
  root_id = 2;
  rendered_frames = 0;
}

abbrev pub renderer : Renderer
renderer = record {
  added = buffer 20 2 ∷ [];
  buffers = buffer 10 1 ∷ [];
  removed = buffer 30 3 ∷ [];
  state = some shared;
  pending_state = none;
  state_changed = false;
  window = true;
  window_changed = false;
  waiting = false;
  last_id = 2;
}

drawn_and_freed : map (λ (b : LorieBuffer). b.address) (round gl renderer).2 ≡ 30 ∷ []
unfolding round
drawn_and_freed = refl

run-held_example :
    let calls =
      removing 2
      ∷ adding (buffer 40 4)
      ∷ adding (buffer 40 4)
      ∷ rounding
      ∷ removing_all
      ∷ rounding
      ∷ [] in
    let (r', freed) = run gl calls renderer in
    (held 40 r' ≤ 1)
    × (held 40 r' + at 40 freed ≡ held 40 renderer + given_all 40 gl calls renderer)
run-held_example =
    run-held 40 gl
      (removing 2
        ∷ adding (buffer 40 4)
        ∷ adding (buffer 40 4)
        ∷ rounding
        ∷ removing_all
        ∷ rounding
        ∷ [])
      renderer (omega arith)

remove-attached_example :
    let (r', freed) = remove_buffer gl 1 renderer in
    let (r'', all_freed) = remove_all gl renderer in
    (attached 10 r' ≡ attached 10 renderer)
    × (at 10 r'.added + at 10 freed ≡ at 10 renderer.added)
    × (attached 10 r'' ≡ attached 10 renderer)
    × (at 10 r''.added + at 10 all_freed ≡ at 10 renderer.added)
remove-attached_example = remove-attached 10 gl 1 renderer

abbrev windows : Windows
windows = record {
  win = given 3;
  pending = given 4;
  surface = window_surface;
  changed = true;
  state = some shared;
}

abbrev egl : Egl
egl = record {
  default_current = true;
  destroyed = true;
  created = true;
  made_current = true;
  has_size = λ n. true;
}

old_window_returned : (refresh egl windows).1 ≡ 3 ∷ []
unfolding refresh
old_window_returned = refl

release_list-empty_example :
    (release_list gl (record (buffer 20 2) { refcount = 3 } ∷ buffer 10 1 ∷ [])).0 ≡ []
release_list-empty_example =
    release_list-empty gl (record (buffer 20 2) { refcount = 3 } ∷ buffer 10 1 ∷ [])
      (omega arith, (omega arith, tt))
