-- ===== src/Renderer.antt =====
-- The renderer of the activity process, app/src/main/cpp/lorie/renderer.c: the three lists of
-- buffers, rendererShouldWait, rendererRedrawLocked and the rounds of rendererThread; and the frame
-- state that it shares with the server.
-- `bufferLock` and `stateLock` make each function here one step; the calls of GL that only draw are
-- left out.
pub mod Lists
pub mod Sweep
pub mod Attached
pub mod Windows
pub mod Examples
use termux_x11_extra.Base.{
  ℕ, zero, suc, ◌+◌, Bool, true, false, not, ◌&&◌, ◌||◌, List, [], ◌∷◌, ◌++◌, Option, none, some,
  ◌==◌, if◌then◌else◌,
}
use termux_x11_extra.Buffer.{LorieBuffer, Log, release}

-- struct lorie_shared_server_state, but for the locks, the condition and the picture of the cursor.
pub record Shared : Type 0 where
  pub draw_requested : Bool
  pub wait_for_next_frame : Bool
  pub surface_available : Bool
  pub cursor_moved : Bool
  pub cursor_updated : Bool
  pub root_id : ℕ  -- rootWindowTextureID
  pub rendered_frames : ℕ

-- The static variables of renderer.c, and `waitingForBuffers` of the thread. `state` is the mapped
-- server state, or none for NULL. `window` says whether `win` is not the default window.
pub record Renderer : Type 0 where
  pub added : List LorieBuffer
  pub buffers : List LorieBuffer
  pub removed : List LorieBuffer
  pub state : Option Shared
  pub pending_state : Option Shared
  pub state_changed : Bool
  pub window : Bool
  pub window_changed : Bool
  pub waiting : Bool
  pub last_id : ℕ  -- lastRequestedBufferId

-- What GL and EGL answer: whether there are a context and a display, the name of the texture for the
-- buffer at an address, the image for a hardware buffer.
pub record Gl : Type 0 where
  pub context : Bool
  pub display : Bool
  pub texture : ℕ → ℕ
  pub image : ℕ → Option ℕ

-- LorieBufferList_findById
abbrev pub find_by_id : List LorieBuffer → ℕ → Option LorieBuffer
find_by_id [] id = none
find_by_id (b ∷ bs) id = if b.desc.id == id then some b else find_by_id bs id

-- What a list keeps of a buffer that is released, and the buffer if that freed it: only a freed buffer
-- leaves its list.
abbrev pub after_release :
    LorieBuffer → Option LorieBuffer × Log → List LorieBuffer × List LorieBuffer
after_release b (none, log) = ([], b ∷ [])
after_release b (some b', log) = (b' ∷ [], [])

-- LorieBuffer_release of the first buffer with the id: the list after it, and what was freed.
unfoldable pub release_id : Gl → ℕ → List LorieBuffer → List LorieBuffer × List LorieBuffer
unfolding release
release_id gl id [] = ([], [])
release_id gl id (b ∷ bs) =
    let (bs', freed) = release_id gl id bs in
    let (left, gone) = after_release b (release gl.context gl.display b) in
    if b.desc.id == id then (left ++ bs, gone) else (b ∷ bs', freed)

-- The first buffer with the id, taken out: the list after it, and the buffer.
unfoldable pub take_id : ℕ → List LorieBuffer → List LorieBuffer × List LorieBuffer
take_id id [] = ([], [])
take_id id (b ∷ bs) =
    let (bs', taken) = take_id id bs in if b.desc.id == id then (bs, b ∷ []) else (b ∷ bs', taken)

abbrev pub is_found : Option LorieBuffer → Bool
is_found none = false
is_found (some b) = true

-- xorg_list_del of the link of the buffer at the address, in the list that it is in.
abbrev pub drop_address : ℕ → List LorieBuffer → List LorieBuffer
drop_address a [] = []
drop_address a (b ∷ bs) = let rest = drop_address a bs in if b.address == a then rest else b ∷ rest

-- rendererAddBuffer; LorieBuffer_addToList takes the buffer out of the list that it is in.
unfoldable pub add_buffer : LorieBuffer → Renderer → Renderer
add_buffer b r = record r {
  added = b ∷ drop_address b.address r.added;
  buffers = drop_address b.address r.buffers;
  removed = drop_address b.address r.removed;
}

-- rendererRemoveBuffer
unfoldable pub remove_buffer : Gl → ℕ → Renderer → Renderer × List LorieBuffer
unfolding release_id take_id
remove_buffer gl id r =
    if is_found (find_by_id r.added id)
    then (let (added, freed) = release_id gl id r.added in (record r { added = added }, freed))
    else let (buffers, taken) = take_id id r.buffers in
      (record r { buffers = buffers; removed = taken ++ r.removed }, [])

-- The loops `while ((buf = LorieBufferList_first(…))) LorieBuffer_release(buf)`, for `fuel` rounds.
unfoldable pub release_rounds : ℕ → Gl → List LorieBuffer → List LorieBuffer × List LorieBuffer
unfolding release
release_rounds zero gl bs = (bs, [])
release_rounds (suc fuel) gl [] = ([], [])
release_rounds (suc fuel) gl (b ∷ bs) =
    let (left, gone) = after_release b (release gl.context gl.display b) in
    let (bs', freed) = release_rounds fuel gl (left ++ bs) in (bs', gone ++ freed)

-- How many releases free a buffer: its references, the count 0 standing for 65,536.
abbrev pub rounds_of : LorieBuffer → ℕ
rounds_of b = if b.refcount == 0 then 65536 else b.refcount

abbrev pub rounds_all : List LorieBuffer → ℕ
rounds_all [] = 0
rounds_all (b ∷ bs) = rounds_of b + rounds_all bs

unfoldable pub release_list : Gl → List LorieBuffer → List LorieBuffer × List LorieBuffer
unfolding release_rounds
release_list gl bs = release_rounds (rounds_all bs) gl bs

-- A loop that takes the first buffer and puts it in front of another list.
abbrev pub push_each : List LorieBuffer → List LorieBuffer → List LorieBuffer
push_each [] list = list
push_each (b ∷ bs) list = push_each bs (b ∷ list)

-- rendererRemoveAllBuffers
unfoldable pub remove_all : Gl → Renderer → Renderer × List LorieBuffer
unfolding release_list
remove_all gl r =
    let (added, freed) = release_list gl r.added in
    (record r { added = added; buffers = []; removed = push_each r.buffers r.removed }, freed)

abbrev pub image_of : Gl → Option ℕ → Option ℕ → Option ℕ
image_of gl (some i) h = some i
image_of gl none none = none
image_of gl none (some h) = gl.image h

-- LorieBuffer_attachToGL
abbrev pub attach_to_gl : Gl → LorieBuffer → LorieBuffer
attach_to_gl gl b =
    if gl.display
    then record b { image = image_of gl b.image b.desc.buffer; texture = gl.texture b.address }
    else b

abbrev pub attach_each : Gl → List LorieBuffer → List LorieBuffer → List LorieBuffer
attach_each gl [] buffers = buffers
attach_each gl (b ∷ bs) buffers = attach_each gl bs (attach_to_gl gl b ∷ buffers)

abbrev pub is_empty : List LorieBuffer → Bool
is_empty [] = true
is_empty (b ∷ bs) = false

-- The loop of rendererThread over `addedBuffers`.
unfoldable pub attach_added : Gl → Renderer → Renderer
attach_added gl r = record r {
  added = [];
  buffers = attach_each gl r.added r.buffers;
  waiting = is_empty r.added && r.waiting;
}

-- The loop of rendererThread over `removedBuffers`.
unfoldable pub sweep : Gl → Renderer → Renderer × List LorieBuffer
unfolding release_list
sweep gl r =
    let (removed, freed) = release_list gl r.removed in (record r { removed = removed }, freed)

abbrev pub is_pending : Shared → Bool
is_pending s = s.draw_requested || (s.cursor_moved || s.cursor_updated)

-- rendererShouldWait, from the test of `state` on: whether to wait, `waitingForBuffers`, and
-- lastRequestedBufferId.
abbrev pub state_waits : Option Shared → Bool → ℕ → Bool × Bool × ℕ
state_waits none waiting last_id = (true, waiting, last_id)
state_waits (some s) waiting last_id =
    let waiting' = if last_id == s.root_id then waiting else false in
    let blocked = not s.surface_available || (s.wait_for_next_frame || waiting') in
    (if blocked then true else not (is_pending s), waiting', s.root_id)

-- rendererShouldWait
unfoldable pub should_wait : Renderer → Renderer × Bool
should_wait r =
    if r.state_changed || (r.window_changed || (not (is_empty r.added) || not (is_empty r.removed)))
    then (r, false)
    else let (wait, waiting, last_id) = state_waits r.state r.waiting r.last_id in
      (record r { waiting = waiting; last_id = last_id }, wait)

-- The block of rendererThread under `if (stateChanged)`.
abbrev pub with_surface : Bool → Option Shared → Option Shared
with_surface available none = none
with_surface available (some s) = some (record s { surface_available = available })

unfoldable pub apply_state : Renderer → Renderer
apply_state r =
    if r.state_changed
    then record r {
      state = with_surface r.window r.pending_state;
      pending_state = none;
      state_changed = false;
      waiting = false;
    }
    else r

-- rendererRedrawLocked on a buffer that was found. The frame counts once it is swapped in.
abbrev pub drawn : Shared → Shared
drawn s = record s {
  draw_requested = false;
  cursor_updated = false;
  cursor_moved = false;
  wait_for_next_frame = true;
  rendered_frames = s.rendered_frames + 1;
}

abbrev pub or_else : Option LorieBuffer → Option LorieBuffer → Option LorieBuffer
or_else (some b) o = some b
or_else none o = o

abbrev pub draw_found : Shared → Renderer → Option LorieBuffer → Renderer × Option LorieBuffer
draw_found s r none = (record r { waiting = true }, none)
draw_found s r (some b) = (record r { state = some (drawn s) }, some b)

-- rendererRedrawLocked; the last part is the buffer that is drawn.
unfoldable pub redraw_locked : Shared → Renderer → Renderer × Option LorieBuffer
redraw_locked s r =
    draw_found s r (or_else (find_by_id r.buffers s.root_id) (find_by_id r.removed s.root_id))

-- The test of rendererThread, and the redraw under it.
unfoldable pub try_redraw : Option Shared → Renderer → Renderer × Option LorieBuffer
unfolding redraw_locked
try_redraw none r = (r, none)
try_redraw (some s) r =
    if s.surface_available && (not s.wait_for_next_frame && is_pending s)
    then redraw_locked s r
    else (r, none)

-- A round of rendererThread that does not wait and meets no new window: what it draws and frees.
unfoldable pub round : Gl → Renderer → Renderer × Option LorieBuffer × List LorieBuffer
unfolding apply_state attach_added try_redraw sweep
round gl r =
    let r1 = attach_added gl (apply_state r) in
    let (r2, shown) = try_redraw r1.state r1 in let (r3, freed) = sweep gl r2 in (r3, shown, freed)
