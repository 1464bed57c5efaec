-- ===== src/Server.antt =====
-- The frame callback of the X server, lorieRedraw of app/src/main/cpp/lorie/InitOutput.c, and
-- lorieMoveCursor: what the server tells the renderer, once for each frame of the display.
pub mod Frames
pub mod Delivery
mod Examples
use termux_x11_extra.Base.{
  ℕ, Bool, true, false, not, ◌&&◌, ◌||◌, List, [], Option, none, some, if◌then◌else◌,
}
use termux_x11_extra.Base.Int.{ℤ, is_zero}
use termux_x11_extra.Buffer.{
  LorieBuffer, Result, success, enodev, eexist, enoent, status, Locking, lock, unlock,
}
use termux_x11_extra.Renderer.{Shared, is_pending}
use termux_x11_extra.Vblank.{Present, Notice, next_frame}

-- LoriePixmapPriv of the root window. The lock of the buffer is kept in `locked`.
pub record Root : Type 0 where
  pub buffer : Option LorieBuffer
  pub locked : Option ℕ

-- The part of `pvfb` that the callback works on. `root` is none where there is no root pixmap or it
-- has no private record; `damaged` says whether the damage region is not empty.
pub record Server : Type 0 where
  pub present : Present
  pub damaged : Bool
  pub root : Option Root

-- The status 0.
abbrev pub is_success : Result → Bool
is_success success = true
is_success (status n) = is_zero n
is_success enodev = false
is_success eexist = false
is_success enoent = false

-- LorieBuffer_unlock and LorieBuffer_lock of the buffer, where it is locked; none is FatalError.
abbrev pub relock_buffer : Locking → ℤ → LorieBuffer → Option Root
relock_buffer l ret b =
    let (b', result, out) = lock l (unlock ret b).0 in
    if is_success result then some (record { buffer = some b'; locked = out }) else none

abbrev pub relock : Locking → ℤ → LorieBuffer → Option ℕ → Option Root
relock l ret b none = some (record { buffer = some b; locked = none })
relock l ret b (some address) = relock_buffer l ret b

-- `if (nonEmpty && priv->buffer)` and its body: the root, the damage and the shared state after it.
abbrev pub taken : Shared → Option Root → Option (Root × Bool × Shared)
taken s none = none
taken s (some root) = some (root, false, record s { draw_requested = true })

abbrev pub take_damage :
    Locking → ℤ → Bool → Root → Option LorieBuffer → Shared → Option (Root × Bool × Shared)
take_damage l ret damaged root none s = some (root, damaged, s)
take_damage l ret false root (some b) s = some (root, false, s)
take_damage l ret true root (some b) s = taken s (relock l ret b root.locked)

-- LorieBuffer_description(priv->buffer)->id
abbrev pub id_of : Option LorieBuffer → ℕ
id_of none = 0
id_of (some b) = b.desc.id

-- The last block: the shared state, and whether the condition is signalled.
abbrev pub announce : Root → Shared → Shared × Bool
announce root s =
    if is_pending s then (record s { root_id = id_of root.buffer }, true) else (s, false)

-- From the test of `priv` on; none is FatalError.
abbrev pub conclude : Server → Option (Root × Bool × Shared) → Option (Server × Shared × Bool)
conclude server none = none
conclude server (some (root, damaged, s)) =
    let (s', signalled) = announce root s in
    some (record server { root = some root; damaged = damaged }, s', signalled)

abbrev pub redraw_root :
    Locking → ℤ → Server → Option Root → Shared → Option (Server × Shared × Bool)
redraw_root l ret server none s = some (server, s, false)
redraw_root l ret server (some root) s =
    conclude server (take_damage l ret server.damaged root root.buffer s)

-- lorieRedraw. `alive` is lorieConnectionAlive(). The notices are those of the vblank queue.
unfoldable pub redraw :
    (ℕ → ℕ) → Bool → Locking → ℤ → Server → Shared → List Notice × Option (Server × Shared × Bool)
unfolding next_frame lock unlock
redraw clock alive l ret server s =
    let (present, notices) = next_frame clock server.present in
    let server' = record server { present = present } in
    let s' = record s { wait_for_next_frame = false } in
    (
      notices,
      if not alive || not s.surface_available
          then some (server', s', false)
          else redraw_root l ret server' server'.root s',
    )

-- lorieMoveCursor, but for the coordinates.
unfoldable pub move_cursor : Shared → Shared
move_cursor s = record s { cursor_moved = true }
