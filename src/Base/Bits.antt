-- ===== src/Base/Bits.antt =====
-- Laws of `&` and `|` at variables, for the masks of the program: tables over a byte, and the
-- digit recursion for words.
use Prim.Native.Nat.{
  ℕ, zero, suc, ◌+◌, ◌*◌, ◌/◌, ◌%◌, ◌^◌, ◌≤◌, ◌<◌, max, bit_and, bit_or, digits, bit_or-bitwise,
}
use mathlib.Core.Path.{◌≡◌, refl}
use mathlib.Core.Bool.{Bool, true, ◌&&◌}
use native.Mathlib.Decide.{dec_lt}
use native.Mathlib.Nat.{pow-suc, mul_assoc}
use native.Mathlib.Omega.{arith}
use termux_x11_extra.Base.Tests.{◌==◌}

-- Two functions agree on the numbers under `n`, by evaluation at each.
agree : (ℕ → ℕ) → (ℕ → ℕ) → ℕ → Bool
agree f g zero = true
agree f g (suc n) = let below = agree f g n in f n == g n && below

agree-eq : (f g : ℕ → ℕ) (x n : ℕ) → x < n → agree f g n ≡ true → f x ≡ g x
unfolding agree
agree-eq f g x zero lt h = absurd (omega arith)
agree-eq f g x (suc n) lt h = elim (dec_lt x n) [
  | yes under ↦ agree-eq f g x n under (ground arith)
  | no top ↦ let e : x ≡ n = omega arith in rw e (ground arith)
]

byte_table : (f g : ℕ → ℕ) → agree f g 256 ≡ true → (x : ℕ) → x < 256 → f x ≡ g x
byte_table f g h x lt = agree-eq f g x 256 lt h

pub bit_and_0x80 : (x : ℕ) → x < 256 → bit_and x 0x80 ≡ x / 128 * 128
unfolding agree
bit_and_0x80 = byte_table (λ x. bit_and x 0x80) (λ x. x / 128 * 128) refl

pub bit_and_0xc0 : (x : ℕ) → x < 256 → bit_and x 0xc0 ≡ x / 64 * 64
unfolding agree
bit_and_0xc0 = byte_table (λ x. bit_and x 0xc0) (λ x. x / 64 * 64) refl

pub bit_and_0xe0 : (x : ℕ) → x < 256 → bit_and x 0xe0 ≡ x / 32 * 32
unfolding agree
bit_and_0xe0 = byte_table (λ x. bit_and x 0xe0) (λ x. x / 32 * 32) refl

pub bit_and_0xf0 : (x : ℕ) → x < 256 → bit_and x 0xf0 ≡ x / 16 * 16
unfolding agree
bit_and_0xf0 = byte_table (λ x. bit_and x 0xf0) (λ x. x / 16 * 16) refl

pub bit_and_0xf8 : (x : ℕ) → x < 256 → bit_and x 0xf8 ≡ x / 8 * 8
unfolding agree
bit_and_0xf8 = byte_table (λ x. bit_and x 0xf8) (λ x. x / 8 * 8) refl

pub bit_and_0x3f : (x : ℕ) → x < 256 → bit_and x 0x3f ≡ x % 64
unfolding agree
bit_and_0x3f = byte_table (λ x. bit_and x 0x3f) (λ x. x % 64) refl

pub bit_and_0x1f : (x : ℕ) → x < 256 → bit_and x 0x1f ≡ x % 32
unfolding agree
bit_and_0x1f = byte_table (λ x. bit_and x 0x1f) (λ x. x % 32) refl

pub bit_and_0x0f : (x : ℕ) → x < 256 → bit_and x 0x0f ≡ x % 16
unfolding agree
bit_and_0x0f = byte_table (λ x. bit_and x 0x0f) (λ x. x % 16) refl

pub bit_and_0x07 : (x : ℕ) → x < 256 → bit_and x 0x07 ≡ x % 8
unfolding agree
bit_and_0x07 = byte_table (λ x. bit_and x 0x07) (λ x. x % 8) refl

-- `|` as the library defines it, with the number of digits that are made.
abbrev or_upto : ℕ → ℕ → ℕ → ℕ
or_upto = digits (λ rest. rest) max

-- That number does not matter from the first operand on.
or_upto-fuel : (n : ℕ) {a : ℕ} → a ≤ n → (b m : ℕ) → a ≤ m → or_upto m a b ≡ or_upto n a b
or_upto-fuel n {a = zero} p b zero q = elim n as (λ k. or_upto 0 0 b ≡ or_upto k 0 b) [
  | zero ↦ refl
  | suc k ↦ refl
]
or_upto-fuel n {a = zero} p b (suc m) q = elim n as (λ k. or_upto (suc m) 0 b ≡ or_upto k 0 b) [
  | zero ↦ refl
  | suc k ↦ refl
]
or_upto-fuel n {a = suc a} p b zero q = absurd (omega arith)
or_upto-fuel zero {a = suc a} p b (suc m) q = absurd (omega arith)
or_upto-fuel (suc n) {a = suc a} p b (suc m) q =
    let shorter = or_upto-fuel n {a = suc a / 2} (omega arith) (b / 2) m (omega arith) in
    omega arith

bit_or_step : (a b : ℕ) → bit_or a b ≡ bit_or (a / 2) (b / 2) * 2 + max (a % 2) (b % 2)
bit_or_step zero b =
    let whole : bit_or 0 b ≡ b = bit_or-bitwise 0 b in
    let halved : bit_or 0 (b / 2) ≡ b / 2 = bit_or-bitwise 0 (b / 2) in omega arith
bit_or_step (suc a) b =
    let half : suc a / 2 ≤ a = omega arith in
    let low = or_upto-fuel a half (b / 2) (suc a / 2) (omega arith) in
    omega (arith, bit_or-bitwise (suc a) b, bit_or-bitwise (suc a / 2) (b / 2), low)

bit_or-zero_upto : (n a : ℕ) → a ≤ n → bit_or a 0 ≡ a
bit_or-zero_upto zero a h = let e : a ≡ 0 = omega arith in rw e refl
bit_or-zero_upto (suc n) a h = elim (dec_lt 0 a) [
  | yes pos ↦ omega (arith, bit_or_step a 0, bit_or-zero_upto n (a / 2) (omega arith))
  | no none ↦ let e : a ≡ 0 = omega arith in rw e refl
]

pub bit_or-zero : (a : ℕ) → bit_or a 0 ≡ a
bit_or-zero a = bit_or-zero_upto a a (omega arith)

-- A shift by one more digit goes under `|`.
bit_or_even : (d x : ℕ) → bit_or (d * 2) x ≡ bit_or d (x / 2) * 2 + x % 2
bit_or_even d x =
    let e : d * 2 / 2 ≡ d = omega arith in
    let step : bit_or (d * 2) x ≡ bit_or d (x / 2) * 2 + max (d * 2 % 2) (x % 2) =
      rw e at (bit_or_step (d * 2) x) in
    omega arith

-- `k` free digits below `d` take any `k` digits.
bit_or_free : (k d x : ℕ) → x < 2 ^ k → bit_or (d * 2 ^ k) x ≡ d * 2 ^ k + x
bit_or_free zero d x h = let e : x ≡ 0 = omega arith in rw (e, bit_or-zero) (omega arith)
bit_or_free (suc k) d x h =
    rw (pow-suc 2 k, ← mul_assoc d (2 ^ k) 2, bit_or_even (d * 2 ^ k) x)
      (omega (arith, bit_or_free k d (x / 2) (omega (arith, pow-suc 2 k))))

pub bit_or_six : (d x : ℕ) → x < 64 → bit_or (d * 64) x ≡ d * 64 + x
bit_or_six d x h = bit_or_free 6 d x h
