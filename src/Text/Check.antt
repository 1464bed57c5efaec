-- ===== src/Text/Check.antt =====
-- lorieCheckUTF8 of clipboard.c: what it reads, and what it accepts.
use termux_x11_extra.Base.{
  ℕ, zero, suc, ◌+◌, ◌/◌, ◌%◌, ◌≤◌, ◌<◌, ◌≡◌, refl, Bool, true, false, List, [], ◌∷◌, ◌++◌, Option,
  some, none, arith, ◌==◌, ◌||◌, length, length-append, ◌^◌, leb, ltb,
}
use mathlib.Core.List.{append_assoc}
use termux_x11_extra.Base.Bits.{bit_and_0x80, bit_and_0xe0, bit_and_0xf0, bit_and_0xf8}
use termux_x11_extra.Text.{Bytes, unit_length, check_from, check_utf8}
use termux_x11_extra.Text.Encoding.{
  IsScalar, IsText, encode, encode_all, encode_cases, continuation_lem,
}

abbrev Within : ℕ → Option ℕ → Type 0
Within n none = ⊥
Within n (some k) = k ≤ n

-- The bytes behind `c` that one round needs are in the block up to the terminator.
unit_length-Within :
    (c : ℕ) (u rest : Bytes) → Within (length u + 1) (unit_length c (u ++ 0 ∷ rest))
unfolding unit_length
unit_length-Within c [] rest = ground arith
unit_length-Within c (d ∷ []) rest = ground arith
unit_length-Within c (d ∷ e ∷ []) rest = ground arith
unit_length-Within c (d ∷ e ∷ f ∷ u) rest = ground arith

abbrev IsAnswer : Option Bool → Type 0
IsAnswer none = ⊥
IsAnswer (some b) = Unit

check_from-IsAnswer :
    (k : ℕ) (u rest : Bytes) (ix size : ℕ)
    → k ≤ length u
    → ix + length u < 2 ^ 31
    → IsAnswer (check_from k (u ++ 0 ∷ rest) ix size)
unfolding check_from
check_from-IsAnswer zero [] rest ix size h small = tt
check_from-IsAnswer zero (c ∷ u) rest ix size h small =
    round (unit_length c (u ++ 0 ∷ rest)) (unit_length-Within c u rest)
      (λ k h. check_from-IsAnswer k u rest (ix + 1) size h (omega (arith, small)))
      (c == 0 || leb size ix)
  where
    step :
        (k : ℕ) (b : Bool)
        → ltb (ix + suc k) (2 ^ 31) ≡ b
        → ix + suc k < 2 ^ 31
        → IsAnswer (check_from k (u ++ 0 ∷ rest) (ix + 1) size)
        → IsAnswer (elim b [ true ↦ check_from k (u ++ 0 ∷ rest) (ix + 1) size | false ↦ none ])
    step k true is fits ih = ih
    step k false is fits ih = ground (arith, is, fits)

    round :
        (o : Option ℕ)
        → Within (length u + 1) o
        → ((k : ℕ) → k ≤ length u → IsAnswer (check_from k (u ++ 0 ∷ rest) (ix + 1) size))
        → (b : Bool)
        → IsAnswer (elim b [
          | true ↦ some true
          | false ↦ elim o [
            | none ↦ none
            | some zero ↦ some false
            | some (suc k) ↦ elim (ltb (ix + suc k) (2 ^ 31)) [
              | true ↦ check_from k (u ++ 0 ∷ rest) (ix + 1) size
              | false ↦ none
            ]
          ]
        ])
    round o w ih true = tt
    round none w ih false = w
    round (some zero) w ih false = tt
    round (some (suc k)) w ih false =
        step k (ltb (ix + suc k) (2 ^ 31)) refl (omega (arith, w, small)) (ih k (omega (arith, w)))
check_from-IsAnswer (suc k) [] rest ix size h small = absurd (omega arith)
check_from-IsAnswer (suc k) (c ∷ u) rest ix size h small =
    check_from-IsAnswer k u rest (ix + 1) size (omega arith) (omega (arith, small))

answer : (o : Option Bool) → IsAnswer o → (b : Bool) × (o ≡ some b)
answer none h = absurd h
answer (some b) h = (b, refl)

-- In a block that holds a terminator behind fewer than 2 ^ 31 bytes, every read of the check stays inside
-- the block and the index does not overflow, for any bytes before the terminator and any `size`.
pub check_utf8_total :
    (u rest : Bytes) (size : ℕ)
    → length u < 2 ^ 31
    → (b : Bool) × (check_utf8 (u ++ 0 ∷ rest) size ≡ some b)
unfolding check_utf8
check_utf8_total u rest size small =
    answer _ (check_from-IsAnswer 0 u rest 0 size (omega arith) (omega (arith, small)))

unit_one : (c : ℕ) (t : Bytes) → c < 128 → unit_length c t ≡ some 1
unfolding unit_length
unit_one c t h = ground (arith, bit_and_0x80 c)

unit_two :
    (x y : ℕ) (t : Bytes) → x < 32 → y < 64 → unit_length (0xc0 + x) ((0x80 + y) ∷ t) ≡ some 2
unfolding unit_length
unit_two x y t hx hy =
    ground (arith, continuation_lem y hy, bit_and_0x80 (0xc0 + x), bit_and_0xe0 (0xc0 + x))

unit_three :
    (x y z : ℕ) (t : Bytes)
    → x < 16
    → y < 64
    → z < 64
    → unit_length (0xe0 + x) ((0x80 + y) ∷ (0x80 + z) ∷ t) ≡ some 3
unfolding unit_length
unit_three x y z t hx hy hz = ground (
  arith,
  continuation_lem y hy,
  continuation_lem z hz,
  bit_and_0x80 (0xe0 + x),
  bit_and_0xe0 (0xe0 + x),
  bit_and_0xf0 (0xe0 + x),
)

unit_four :
    (x y z w : ℕ) (t : Bytes)
    → x < 8
    → y < 64
    → z < 64
    → w < 64
    → unit_length (0xf0 + x) ((0x80 + y) ∷ (0x80 + z) ∷ (0x80 + w) ∷ t) ≡ some 4
unfolding unit_length
unit_four x y z w t hx hy hz hw = ground (
  arith,
  continuation_lem y hy,
  continuation_lem z hz,
  continuation_lem w hw,
  bit_and_0x80 (0xf0 + x),
  bit_and_0xe0 (0xf0 + x),
  bit_and_0xf0 (0xf0 + x),
  bit_and_0xf8 (0xf0 + x),
)

-- A round at a unit that the check accepts goes on behind it, unless `size` is reached.
round_accepts :
    (c k : ℕ) (u : Bytes) (ix size : ℕ)
    → unit_length c u ≡ some (suc k)
    → ix + suc k < 2 ^ 31
    → check_from k u (ix + 1) size ≡ some true
    → check_from 0 (c ∷ u) ix size ≡ some true
unfolding check_from
round_accepts c k u ix size unit small more = ground arith

-- The check accepts what is there from any index on that leaves room for n bytes.
abbrev AcceptsFrom : Bytes → ℕ → ℕ → Type 0
AcceptsFrom t n size = (ix : ℕ) → ix + n < 2 ^ 31 → check_from 0 t ix size ≡ some true

module _ (t : Bytes) (n size : ℕ) (accepts : AcceptsFrom t n size) where
  Accepts-encode :
      (cp : ℕ) → IsScalar cp → AcceptsFrom (encode cp ++ t) (length (encode cp) + n) size
  unfolding check_from
  Accepts-encode =
      encode_cases (λ cp e. AcceptsFrom (e ++ t) (length e + n) size)
        (λ cp lo ix small.
          round_accepts cp 0 t ix size (unit_one cp t lo) (omega (arith, small))
            (accepts (ix + 1) (omega (arith, small))))
        (λ cp lo hi ix small.
          round_accepts _ 1 ((0x80 + cp % 64) ∷ t) ix size
            (unit_two (cp / 64) (cp % 64) t (omega arith) (omega arith)) (omega (arith, small))
            (accepts (ix + 1 + 1) (omega (arith, small))))
        (λ cp s lo hi ix small.
          round_accepts _ 2 ((0x80 + cp / 64 % 64) ∷ (0x80 + cp % 64) ∷ t) ix size
            (unit_three (cp / 4096) (cp / 64 % 64) (cp % 64) t (omega arith) (omega arith)
              (omega arith))
            (omega (arith, small)) (accepts (ix + 1 + 1 + 1) (omega (arith, small))))
        (λ cp s lo ix small.
          round_accepts _ 3 ((0x80 + cp / 4096 % 64) ∷ (0x80 + cp / 64 % 64) ∷ (0x80 + cp % 64) ∷ t)
            ix size
            (unit_four (cp / 262144) (cp / 4096 % 64) (cp / 64 % 64) (cp % 64) t (omega arith)
              (omega arith) (omega arith) (omega arith))
            (omega (arith, small)) (accepts (ix + 1 + 1 + 1 + 1) (omega (arith, small))))

check_from-encode_all :
    (cps : List ℕ) (rest : Bytes) (size : ℕ)
    → IsText cps
    → AcceptsFrom (encode_all cps ++ 0 ∷ rest) (length (encode_all cps)) size
unfolding encode_all check_from
check_from-encode_all [] rest size h ix small = refl
check_from-encode_all (cp ∷ cps) rest size h ix small =
    rw (append_assoc (encode cp) (encode_all cps) (0 ∷ rest)) (
      Accepts-encode (encode_all cps ++ 0 ∷ rest) (length (encode_all cps)) size
        (check_from-encode_all cps rest size h.1) cp h.0.0 ix
        (omega (arith, small, length-append (encode cp) (encode_all cps))))

-- The check accepts the encoding of every text in fewer than 2 ^ 31 bytes, for any `size`.
pub check_utf8-encode_all :
    (cps : List ℕ) (rest : Bytes) (size : ℕ)
    → IsText cps
    → length (encode_all cps) < 2 ^ 31
    → check_utf8 (encode_all cps ++ 0 ∷ rest) size ≡ some true
unfolding check_utf8
check_utf8-encode_all cps rest size text small =
    check_from-encode_all cps rest size text 0 (omega (arith, small))
