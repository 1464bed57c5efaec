-- ===== src/Server/Delivery.antt =====
-- What the server asks for is drawn: damage reaches the screen, and a draw of a buffer that has not
-- arrived yet is made up for when it arrives.
use termux_x11_extra.Base.{
  ◌≡◌, refl, ap, ◌∙◌, Bool, true, false, not, ◌&&◌, List, [], ◌∷◌, Option, none, some, arith, ◌==◌,
  ==_refl, if-true, if-false, All,
}
use termux_x11_extra.Buffer.{LorieBuffer}
use termux_x11_extra.Renderer.{
  Shared, Renderer, Gl, find_by_id, drop_address, add_buffer, attach_added, attach_to_gl,
  attach_each, is_pending, should_wait, apply_state, drawn, or_else, draw_found, redraw_locked,
  try_redraw, sweep, round,
}
use termux_x11_extra.Renderer.Attached.{round-attached}
use termux_x11_extra.Renderer.Sweep.{HasCount}
use termux_x11_extra.Server.{Server}

abbrev pub may_draw : Shared → Bool
may_draw s = s.surface_available && (not s.wait_for_next_frame && is_pending s)

try_redraw-found :
    (s : Shared) (r : Renderer) (b : LorieBuffer)
    → may_draw s ≡ true
    → find_by_id r.buffers s.root_id ≡ some b
    → try_redraw (some s) r ≡ (record r { state = some (drawn s) }, some b)
unfolding try_redraw redraw_locked
try_redraw-found s r b may found =
    if-true (may_draw s) (redraw_locked s r) (r, none) may
    ∙ ap (λ o. draw_found s r (or_else o (find_by_id r.removed s.root_id))) found

try_redraw-missing :
    (s : Shared) (r : Renderer)
    → may_draw s ≡ true
    → find_by_id r.buffers s.root_id ≡ none
    → find_by_id r.removed s.root_id ≡ none
    → try_redraw (some s) r ≡ (record r { waiting = true }, none)
unfolding try_redraw redraw_locked
try_redraw-missing s r may missing missing' =
    if-true (may_draw s) (redraw_locked s r) (r, none) may
    ∙ ap (λ o. draw_found s r (or_else o (find_by_id r.removed s.root_id))) missing
    ∙ ap (λ o. draw_found s r o) missing'

apply_state-unchanged : (r : Renderer) → r.state_changed ≡ false → apply_state r ≡ r
unfolding apply_state
apply_state-unchanged r unchanged = if-false r.state_changed _ r unchanged

should_wait-added :
    (r : Renderer) (b : LorieBuffer) (bs : List LorieBuffer)
    → r.added ≡ b ∷ bs
    → should_wait r ≡ (r, false)
unfolding should_wait
should_wait-added r b bs is = ground arith

attach_to_gl-id : (gl : Gl) (b : LorieBuffer) → (attach_to_gl gl b).desc.id ≡ b.desc.id
attach_to_gl-id gl b = ground arith

round-redraw :
    (gl : Gl) (r : Renderer) (x : Renderer × Option LorieBuffer)
    → (let r1 = attach_added gl (apply_state r) in try_redraw r1.state r1 ≡ x)
    → ((round gl r).1 ≡ x.1) × ((round gl r).0 ≡ (sweep gl x.0).0)
unfolding round
round-redraw gl r x e = (
  ap (λ (p : Renderer × Option LorieBuffer). p.1) e,
  ap (λ (p : Renderer × Option LorieBuffer). (sweep gl p.0).0) e,
)

-- A round that is asked to draw a buffer that is missing.
round-missing :
    (gl : Gl) (r : Renderer) (s : Shared)
    → r.state ≡ some s
    → r.state_changed ≡ false
    → may_draw s ≡ true
    → r.added ≡ []
    → find_by_id r.buffers s.root_id ≡ none
    → find_by_id r.removed s.root_id ≡ none
    → let r' = (round gl r).0 in
      ((round gl r).1 ≡ none)
      × (r'.waiting ≡ true)
      × (r'.state ≡ some s)
      × (r'.state_changed ≡ false)
      × (r'.added ≡ [])
      × (r'.window_changed ≡ r.window_changed)
      × (r'.last_id ≡ r.last_id)
unfolding attach_added sweep
round-missing gl r s is_state unchanged may none_added missing missing' =
    let same = apply_state-unchanged r unchanged in
    let r1 = attach_added gl (apply_state r) in
    let state1 : r1.state ≡ some s = ap (λ (x : Renderer). x.state) same ∙ is_state in
    let missing1 : find_by_id r1.buffers s.root_id ≡ none =
      ap (λ (x : Renderer). find_by_id (attach_each gl x.added x.buffers) s.root_id) same
      ∙ ap (λ a. find_by_id (attach_each gl a r.buffers) s.root_id) none_added
      ∙ missing in
    let missing1' : find_by_id r1.removed s.root_id ≡ none =
      ap (λ (x : Renderer). find_by_id x.removed s.root_id) same ∙ missing' in
    let redrawn =
      ap (λ o. try_redraw o r1) state1 ∙ try_redraw-missing s r1 may missing1 missing1' in
    let (shown, left) = round-redraw gl r (record r1 { waiting = true }, none) redrawn in
    (
      shown,
      ap (λ (x : Renderer). x.waiting) left,
      ap (λ (x : Renderer). x.state) left ∙ state1,
      ap (λ (x : Renderer). x.state_changed) left
          ∙ ap (λ (x : Renderer). x.state_changed) same
          ∙ unchanged,
      ap (λ (x : Renderer). x.added) left,
      ap (λ (x : Renderer). x.window_changed) left ∙ ap (λ (x : Renderer). x.window_changed) same,
      ap (λ (x : Renderer). x.last_id) left ∙ ap (λ (x : Renderer). x.last_id) same,
    )

-- A renderer without news that waits for buffers, the last request being for the same one.
should_wait-waiting :
    (r : Renderer) (s : Shared)
    → r.state ≡ some s
    → r.state_changed ≡ false
    → r.window_changed ≡ false
    → r.added ≡ []
    → r.removed ≡ []
    → r.waiting ≡ true
    → r.last_id ≡ s.root_id
    → (should_wait r).1 ≡ true
unfolding should_wait
should_wait-waiting r s is_state unchanged same_window none_added none_removed waits last =
    rw (is_state, unchanged, same_window, none_added, none_removed, waits, last, ==_refl s.root_id)
      (ground arith)

-- A round that is asked to draw the buffer that was added just before.
round-added :
    (gl : Gl) (r : Renderer) (s : Shared) (b : LorieBuffer)
    → r.state ≡ some s
    → r.state_changed ≡ false
    → may_draw s ≡ true
    → r.added ≡ b ∷ []
    → b.desc.id ≡ s.root_id
    → (round gl r).1 ≡ some (attach_to_gl gl b)
unfolding attach_added
round-added gl r s b is_state unchanged may is_added id =
    let same = apply_state-unchanged r unchanged in
    let r1 = attach_added gl (apply_state r) in
    let c = attach_to_gl gl b in
    let state1 : r1.state ≡ some s = ap (λ (x : Renderer). x.state) same ∙ is_state in
    let same_id : (c.desc.id == s.root_id) ≡ true =
      ap (λ n. n == s.root_id) (attach_to_gl-id gl b ∙ id) ∙ ==_refl s.root_id in
    let found : find_by_id r1.buffers s.root_id ≡ some c =
      ap (λ (x : Renderer). find_by_id (attach_each gl x.added x.buffers) s.root_id) same
      ∙ ap (λ a. find_by_id (attach_each gl a r.buffers) s.root_id) is_added
      ∙ if-true (c.desc.id == s.root_id) (some c) (find_by_id r.buffers s.root_id) same_id in
    let redrawn = ap (λ o. try_redraw o r1) state1 ∙ try_redraw-found s r1 c may found in
    (round-redraw gl r (record r1 { state = some (drawn s) }, some c) redrawn).0

-- A renderer that is asked to draw a buffer that it does not have, and may draw, that was last asked
-- for the same one, whose window stays, and where the counts of the removed buffers are below 65,536: a
-- round draws nothing, and rendererShouldWait lets the thread wait after it, although the request is
-- pending; once the buffer with that id is added, the thread does not wait, and its next round draws
-- it.
pub late-buffer :
    (gl gl' : Gl) (r : Renderer) (s : Shared) (b : LorieBuffer)
    → r.state ≡ some s
    → r.state_changed ≡ false
    → may_draw s ≡ true
    → r.added ≡ []
    → find_by_id r.buffers s.root_id ≡ none
    → find_by_id r.removed s.root_id ≡ none
    → r.window_changed ≡ false
    → r.last_id ≡ s.root_id
    → All HasCount r.removed
    → b.desc.id ≡ s.root_id
    → let (r1, shown, freed) = round gl r in
      let r2 = add_buffer b r1 in
      (shown ≡ none)
      × ((should_wait r1).1 ≡ true)
      × ((should_wait r2).1 ≡ false)
      × ((round gl' (should_wait r2).0).1 ≡ some (attach_to_gl gl' b))
unfolding add_buffer
late-buffer gl gl' r s b is_state unchanged may none_added missing missing' same_window last counts
      id =
    let (shown, waits, state1, unchanged1, added1, window1, last1) =
      round-missing gl r s is_state unchanged may none_added missing missing' in
    let r1 = (round gl r).0 in
    let r2 = add_buffer b r1 in
    let is_added : r2.added ≡ b ∷ [] = ap (λ bs. b ∷ drop_address b.address bs) added1 in
    let awake = should_wait-added r2 b (drop_address b.address r1.added) refl in
    (
      shown,
      should_wait-waiting r1 s state1 unchanged1 (window1 ∙ same_window) added1
          (round-attached 0 gl r counts).1 waits (last1 ∙ last),
      ap (λ (p : Renderer × Bool). p.1) awake,
      ap (λ (p : Renderer × Bool). (round gl' p.0).1) awake
          ∙ round-added gl' r2 s b state1 unchanged1 may is_added id,
    )
