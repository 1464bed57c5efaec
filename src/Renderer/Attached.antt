-- ===== src/Renderer/Attached.antt =====
-- Which thread frees what: buffers that are attached to GL are freed by the rounds of the renderer
-- thread alone, and one round handles all that was added and removed.
use termux_x11_extra.Base.{ℕ, ◌+◌, ◌≡◌, refl, ap, ◌∙◌, List, [], Option, none, some, arith, All}
use termux_x11_extra.Buffer.{LorieBuffer}
use termux_x11_extra.Renderer.{
  Shared, Renderer, Gl, take_id, remove_buffer, release_list, remove_all, attach_added, sweep,
  apply_state, redraw_locked, try_redraw, round,
}
use termux_x11_extra.Renderer.Lists.{
  at, push_each-at, take_id-at, at-append, release_id-at, release_list-at, attach_each-at,
}
use termux_x11_extra.Renderer.Sweep.{HasCount, release_list-empty}

abbrev pub attached : ℕ → Renderer → ℕ
attached i r = at i r.buffers + at i r.removed

-- rendererRemoveBuffer and rendererRemoveAllBuffers, for every address: as many attached buffers
-- are held after them as before, and what they free was added and not attached yet.
pub remove-attached :
    (i : ℕ) (gl : Gl) (id : ℕ) (r : Renderer)
    → let (r', freed) = remove_buffer gl id r in
      let (r'', all_freed) = remove_all gl r in
      (attached i r' ≡ attached i r)
      × (at i r'.added + at i freed ≡ at i r.added)
      × (attached i r'' ≡ attached i r)
      × (at i r''.added + at i all_freed ≡ at i r.added)
unfolding remove_buffer remove_all
remove-attached i gl id r = ground (
  arith,
  release_id-at i gl id r.added,
  take_id-at i id r.buffers,
  at-append i (take_id id r.buffers).1 r.removed,
  release_list-at i gl r.added,
  push_each-at i r.buffers r.removed,
)

abbrev pub HasLists : List LorieBuffer → List LorieBuffer → List LorieBuffer → Renderer → Type 0
HasLists added buffers removed r = (r.added ≡ added) × (r.buffers ≡ buffers) × (r.removed ≡ removed)

redraw_locked-HasLists :
    (s : Shared) (r : Renderer) → HasLists r.added r.buffers r.removed (redraw_locked s r).0
unfolding redraw_locked
redraw_locked-HasLists s r = ground arith

pub try_redraw-HasLists :
    (o : Option Shared) (r : Renderer) → HasLists r.added r.buffers r.removed (try_redraw o r).0
unfolding try_redraw
try_redraw-HasLists none r = (refl, refl, refl)
try_redraw-HasLists (some s) r = ground (arith, redraw_locked-HasLists s r)

pub apply_state-HasLists : (r : Renderer) → HasLists r.added r.buffers r.removed (apply_state r)
unfolding apply_state
apply_state-HasLists r = ground arith

pub round-attached :
    (i : ℕ) (gl : Gl) (r : Renderer)
    → All HasCount r.removed
    → let (r', shown, freed) = round gl r in
      (r'.added ≡ [])
      × (r'.removed ≡ [])
      × (at i r'.buffers ≡ at i r.added + at i r.buffers)
      × (at i freed ≡ at i r.removed)
unfolding round attach_added sweep
round-attached i gl r h =
    let r1 = attach_added gl (apply_state r) in
    let r2 = (try_redraw r1.state r1).0 in
    let (same_added, same_buffers, same_removed) = apply_state-HasLists r in
    let (kept_added, kept_buffers, kept_removed) = try_redraw-HasLists r1.state r1 in
    let is_removed : r2.removed ≡ r.removed = kept_removed ∙ same_removed in
    let all_gone : (release_list gl r2.removed).0 ≡ [] =
      ap (λ bs. (release_list gl bs).0) is_removed ∙ release_list-empty gl r.removed h in
    (
      kept_added,
      all_gone,
      ap (at i) kept_buffers
          ∙ attach_each-at i gl (apply_state r).added (apply_state r).buffers
          ∙ ap (λ bs. at i bs + at i (apply_state r).buffers) same_added
          ∙ ap (λ bs. at i r.added + at i bs) same_buffers,
      omega (arith, release_list-at i gl r2.removed, ap (at i) all_gone, ap (at i) is_removed),
    )
