-- ===== src/Activity/Known.antt =====
-- The buffers that the renderer of the activity can find by an id, app/src/main/cpp/lorie/renderer.c, as
-- buffers come and go and the renderer's thread makes its rounds.
use mathlib.Core.Path.{subst}
use termux_x11_extra.Base.{
  ℕ, ◌+◌, ◌-◌, ◌≡◌, refl, sym, ap, Bool, false, List, [], ◌∷◌, ◌++◌, arith, ltb, ◌==◌, ==_refl, inl,
  inr, Bool-cases, if◌then◌else◌, if-elim, count, All,
}
use termux_x11_extra.Buffer.{LorieBuffer, release}
use termux_x11_extra.Channel.Link.{remove_id}
use termux_x11_extra.Renderer.{
  Renderer, Gl, after_release, find_by_id, is_found, release_id, take_id, remove_buffer,
  release_list, remove_all, attach_to_gl, attach_each, attach_added, sweep, apply_state, round,
}
use termux_x11_extra.Renderer.Attached.{apply_state-HasLists, try_redraw-HasLists}

-- How often the id stands in a list.
abbrev pub times : ℕ → List ℕ → ℕ
times i = count (λ (id : ℕ). id == i)

abbrev pub buffers_with : ℕ → List LorieBuffer → ℕ
buffers_with i = count (λ (b : LorieBuffer). b.desc.id == i)

-- How many buffers with the id the renderer has to draw from.
abbrev pub known : ℕ → Renderer → ℕ
known i r = buffers_with i r.added + buffers_with i r.buffers

abbrev pub one_if : Bool → ℕ
one_if b = if b then 1 else 0

-- A buffer of one reference.
abbrev pub IsSingle : LorieBuffer → Type 0
IsSingle b = b.refcount ≡ 1

pub times-remove_id :
    (i id : ℕ) (bs : List ℕ) → times i (remove_id id bs) ≡ times i bs - one_if (id == i)
times-remove_id i id [] = omega arith
times-remove_id i id (b ∷ bs) = ground (arith, times-remove_id i id bs)

release_id-with :
    (i id : ℕ) (gl : Gl) (bs : List LorieBuffer)
    → All IsSingle bs
    → buffers_with i (release_id gl id bs).0 ≡ buffers_with i bs - one_if (id == i)
unfolding release_id release
release_id-with i id gl [] single = omega arith
release_id-with i id gl (b ∷ bs) (one, ones) = ground (arith, release_id-with i id gl bs ones)

release-gone :
    (context display : Bool) (b : LorieBuffer)
    → IsSingle b
    → (after_release b (release context display b)).0 ≡ []
unfolding release
release-gone context display b one = ground arith

release_id-IsSingle :
    (id : ℕ) (gl : Gl) (bs : List LorieBuffer)
    → All IsSingle bs
    → All IsSingle (release_id gl id bs).0
unfolding release_id
release_id-IsSingle id gl [] single = tt
release_id-IsSingle id gl (b ∷ bs) (one, ones) =
    if-elim (λ (r : List LorieBuffer × List LorieBuffer). All IsSingle r.0) (b.desc.id == id) _ _
      (λ _.
        subst (λ l. All IsSingle (l ++ bs)) (sym (release-gone gl.context gl.display b one)) ones)
      (λ _. (one, release_id-IsSingle id gl bs ones))

take_id-with :
    (i id : ℕ) (bs : List LorieBuffer)
    → buffers_with i (take_id id bs).0 ≡ buffers_with i bs - one_if (id == i)
unfolding take_id
take_id-with i id [] = omega arith
take_id-with i id (b ∷ bs) = ground (arith, take_id-with i id bs)

find_by_id-with :
    (id : ℕ) (bs : List LorieBuffer) → is_found (find_by_id bs id) ≡ ltb 0 (buffers_with id bs)
find_by_id-with id [] = refl
find_by_id-with id (b ∷ bs) = ground (arith, find_by_id-with id bs)

pub attach_each-with :
    (i : ℕ) (gl : Gl) (bs cs : List LorieBuffer)
    → buffers_with i (attach_each gl bs cs) ≡ buffers_with i bs + buffers_with i cs
attach_each-with i gl [] cs = omega arith
attach_each-with i gl (b ∷ bs) cs =
    ground (arith, attach_each-with i gl bs (attach_to_gl gl b ∷ cs))

remove_buffer-same :
    (i : ℕ) (gl : Gl) (r : Renderer)
    → All IsSingle r.added
    → known i (remove_buffer gl i r).0 ≡ known i r - 1
unfolding remove_buffer
remove_buffer-same i gl r single = ground (
  arith,
  find_by_id-with i r.added,
  release_id-with i i gl r.added single,
  take_id-with i i r.buffers,
)

remove_buffer-other :
    (i id : ℕ) (gl : Gl) (r : Renderer)
    → All IsSingle r.added
    → (id == i) ≡ false
    → known i (remove_buffer gl id r).0 ≡ known i r
unfolding remove_buffer
remove_buffer-other i id gl r single other =
    ground (arith, release_id-with i id gl r.added single, take_id-with i id r.buffers)

-- rendererRemoveBuffer takes one of them.
pub remove_buffer-known :
    (i id : ℕ) (gl : Gl) (r : Renderer)
    → All IsSingle r.added
    → known i (remove_buffer gl id r).0 ≡ known i r - one_if (id == i)
remove_buffer-known i id gl r single = elim (Bool-cases (id == i)) [
  | inl same ↦ let e : id ≡ i = ground arith in rw (e, ==_refl i) (remove_buffer-same i gl r single)
  | inr other ↦ rw other (omega (arith, remove_buffer-other i id gl r single other))
]

pub remove_buffer-IsSingle :
    (id : ℕ) (gl : Gl) (r : Renderer)
    → All IsSingle r.added
    → All IsSingle (remove_buffer gl id r).0.added
unfolding remove_buffer
remove_buffer-IsSingle id gl r single =
    if-elim (λ (p : Renderer × List LorieBuffer). All IsSingle p.0.added)
      (is_found (find_by_id r.added id)) _ _ (λ _. release_id-IsSingle id gl r.added single)
      (λ _. single)

-- A round attaches what was added, and loses none.
pub round-known :
    (i : ℕ) (gl : Gl) (r : Renderer)
    → let r' = (round gl r).0 in (known i r' ≡ known i r) × (r'.added ≡ [])
unfolding round attach_added sweep
round-known i gl r =
    let r1 = attach_added gl (apply_state r) in
    let (same_added, same_buffers, same_removed) = apply_state-HasLists r in
    let (kept_added, kept_buffers, kept_removed) = try_redraw-HasLists r1.state r1 in
    (
      omega (
        arith,
        ap (buffers_with i) kept_added,
        ap (buffers_with i) kept_buffers,
        attach_each-with i gl (apply_state r).added (apply_state r).buffers,
        ap (buffers_with i) same_added,
        ap (buffers_with i) same_buffers,
      ),
      kept_added,
    )

-- rendererRemoveAllBuffers after a round leaves none.
pub remove_all-known :
    (i : ℕ) (gl : Gl) (r : Renderer)
    → r.added ≡ []
    → let r' = (remove_all gl r).0 in (known i r' ≡ 0) × (r'.added ≡ [])
unfolding remove_all release_list
remove_all-known i gl r none_ = rw none_ (refl, refl)
