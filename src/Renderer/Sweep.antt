-- ===== src/Renderer/Sweep.antt =====
-- The loops of the renderer that release whole lists end with an empty list.
use termux_x11_extra.Base.{
  ℕ, zero, suc, ◌+◌, ◌-◌, ◌<◌, ◌%◌, ◌≡◌, ◌∙◌, ap, refl, Bool, List, [], ◌∷◌, ◌++◌, Option, none,
  some, arith, ==-false, All,
}
use termux_x11_extra.Buffer.{LorieBuffer, Log, release, free}
use termux_x11_extra.Renderer.{
  Gl, after_release, release_rounds, rounds_of, rounds_all, release_list,
}

-- int16_t
abbrev pub HasCount : LorieBuffer → Type 0
HasCount b = b.refcount < 65536

release-one :
    (context display : Bool) (b : LorieBuffer)
    → rounds_of b ≡ 1
    → release context display b ≡ (none, free context display b)
unfolding release
release-one context display b is =
    let count_one : b.refcount ≡ 1 = ground arith in rw count_one refl

release-more :
    (context display : Bool) (b : LorieBuffer) (n : ℕ)
    → rounds_of b ≡ suc (suc n)
    → HasCount b
    → release context display b ≡ (some (record b { refcount = suc n }), [])
unfolding release
release-more context display b n is fits =
    let less : (b.refcount + 65535) % 65536 ≡ suc n = ground arith in
    rw (==-false b.refcount 1 (ground arith), less) refl

release_rounds-step :
    (gl : Gl) (fuel : ℕ) (b : LorieBuffer) (bs : List LorieBuffer) (o : Option LorieBuffer × Log)
    → release gl.context gl.display b ≡ o
    → (release_rounds (suc fuel) gl (b ∷ bs)).0
      ≡ (release_rounds fuel gl ((after_release b o).0 ++ bs)).0
unfolding release_rounds
release_rounds-step gl fuel b bs o e =
    ap (λ (p : Option LorieBuffer × Log). (release_rounds fuel gl ((after_release b p).0 ++ bs)).0)
      e

release_rounds-front :
    (gl : Gl) (n k : ℕ) (b : LorieBuffer) (bs : List LorieBuffer)
    → rounds_of b ≡ suc n
    → HasCount b
    → (release_rounds (suc n + k) gl (b ∷ bs)).0 ≡ (release_rounds k gl bs).0
release_rounds-front gl zero k b bs is fits =
    let fuel : 1 + k ≡ suc k = omega arith in
    rw fuel (
      release_rounds-step gl k b bs (none, free gl.context gl.display b)
        (release-one gl.context gl.display b is))
release_rounds-front gl (suc n) k b bs is fits =
    let fuel : suc (suc n) + k ≡ suc (suc n + k) = omega arith in
    let b' = record b { refcount = suc n } in
    let fewer : rounds_of b' ≡ suc n = ground arith in
    rw fuel (
      release_rounds-step gl (suc n + k) b bs (some b', [])
        (release-more gl.context gl.display b n is fits)
      ∙ release_rounds-front gl n k b' bs fewer (ground arith))

rounds_of-suc : (b : LorieBuffer) → HasCount b → (n : ℕ) × (rounds_of b ≡ suc n)
rounds_of-suc b h = (rounds_of b - 1, ground arith)

-- The loop that releases the buffers of a list, whose counts are below 65536, ends with an empty list
-- after as many rounds as the buffers have references (65536 for a count of 0).
pub release_list-empty :
    (gl : Gl) (bs : List LorieBuffer) → All HasCount bs → (release_list gl bs).0 ≡ []
unfolding release_list release_rounds
release_list-empty gl [] h = refl
release_list-empty gl (b ∷ bs) h =
    let (n, is) = rounds_of-suc b h.0 in
    rw is (release_rounds-front gl n (rounds_all bs) b bs is h.0) ∙ release_list-empty gl bs h.1
