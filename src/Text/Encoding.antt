-- ===== src/Text/Encoding.antt =====
-- The decoder lorieUtf8ToUCS4 of clipboard.c against the encoding that RFC 3629 defines.
use termux_x11_extra.Base.{
  ℕ, suc, ◌+◌, ◌-◌, ◌*◌, ◌/◌, ◌%◌, ◌^◌, ◌≤◌, ◌<◌, ◌≡◌, ◌∙◌, ◌⊎◌, inl, inr, bit_and, true, [], ◌∷◌,
  ◌++◌, List, some, arith, ltb, if◌then◌else◌, length, All, Bool-cases,
}
use termux_x11_extra.Base.Bits.{
  bit_and_0x80, bit_and_0xc0, bit_and_0xe0, bit_and_0xf0, bit_and_0xf8, bit_and_0x3f, bit_and_0x1f,
  bit_and_0x0f, bit_and_0x07, bit_or_six,
}
use termux_x11_extra.Text.{Bytes, is_continuation, decode_rest, decode_front, utf8_to_ucs4}

-- The characters of UTF-8: the code points but the surrogates.
abbrev pub IsScalar : ℕ → Type 0
IsScalar cp = (cp < 0xd800) ⊎ ((0xe000 ≤ cp) × (cp < 0x110000))

unfoldable pub encode : ℕ → Bytes
encode cp =
    if ltb cp 0x80
    then cp ∷ []
    else if ltb cp 0x800
    then (0xc0 + cp / 64) ∷ (0x80 + cp % 64) ∷ []
    else if ltb cp 0x10000
    then (0xe0 + cp / 4096) ∷ (0x80 + cp / 64 % 64) ∷ (0x80 + cp % 64) ∷ []
    else (0xf0 + cp / 262144)
      ∷ (0x80 + cp / 4096 % 64)
      ∷ (0x80 + cp / 64 % 64)
      ∷ (0x80 + cp % 64)
      ∷ []

pub continuation_lem : (x : ℕ) → x < 64 → is_continuation (0x80 + x) ≡ true
continuation_lem x h = ground (arith, bit_and_0xc0 (0x80 + x))

-- A continuation byte adds six digits.
decode_rest_step :
    (n x : ℕ) (src : Bytes) (max k d : ℕ)
    → x < 64
    → d * 64 < 2 ^ 32
    → 0 < max
    → decode_rest (suc n) ((0x80 + x) ∷ src) max k d
      ≡ decode_rest n src (max - 1) (k + 1) (d * 64 + x)
unfolding decode_rest
decode_rest_step n x src max k d hx hd hm =
    let low : bit_and (0x80 + x) 0x3f ≡ x = omega (arith, bit_and_0x3f (0x80 + x)) in
    let wrap : d * 64 % 2 ^ 32 ≡ d * 64 = omega arith in
    rw (low, wrap, bit_or_six d x hx, continuation_lem x hx) (ground arith)

decode_rest_end : (src : Bytes) (max k d : ℕ) → IsScalar d → decode_rest 0 src max k d ≡ some (k, d)
unfolding decode_rest
decode_rest_end src max k d h = ground arith

front_one : (c : ℕ) (src : Bytes) (max : ℕ) → c < 128 → decode_front c src max ≡ some (1, c)
unfolding decode_front decode_rest
front_one c src max h = ground (arith, bit_and_0x80 c)

front_two :
    (x : ℕ) (src : Bytes) (max : ℕ)
    → x < 32
    → decode_front (0xc0 + x) src max ≡ decode_rest 1 src max 1 x
unfolding decode_front
front_two x src max h =
    ground (arith, bit_and_0x80 (0xc0 + x), bit_and_0xe0 (0xc0 + x), bit_and_0x1f (0xc0 + x))

front_three :
    (x : ℕ) (src : Bytes) (max : ℕ)
    → x < 16
    → decode_front (0xe0 + x) src max ≡ decode_rest 2 src max 1 x
unfolding decode_front
front_three x src max h = ground (
  arith,
  bit_and_0x80 (0xe0 + x),
  bit_and_0xe0 (0xe0 + x),
  bit_and_0xf0 (0xe0 + x),
  bit_and_0x0f (0xe0 + x),
)

front_four :
    (x : ℕ) (src : Bytes) (max : ℕ)
    → x < 8
    → decode_front (0xf0 + x) src max ≡ decode_rest 3 src max 1 x
unfolding decode_front
front_four x src max h = ground (
  arith,
  bit_and_0x80 (0xf0 + x),
  bit_and_0xe0 (0xf0 + x),
  bit_and_0xf0 (0xf0 + x),
  bit_and_0xf8 (0xf0 + x),
  bit_and_0x07 (0xf0 + x),
)

decode_two :
    (cp : ℕ) (rest : Bytes) (max : ℕ)
    → 0x80 ≤ cp
    → cp < 0x800
    → 1 ≤ max
    → decode_front (0xc0 + cp / 64) ((0x80 + cp % 64) ∷ rest) max ≡ some (2, cp)
decode_two cp rest max lo hi hm =
    let whole : cp / 64 * 64 + cp % 64 ≡ cp = omega arith in
    rw (
      front_two (cp / 64) _ max (omega arith),
      decode_rest_step 0 (cp % 64) rest max 1 (cp / 64) (omega arith) (omega arith) (omega arith),
      whole,
      decode_rest_end rest (max - 1) 2 cp (omega arith),
    )

decode_three :
    (cp : ℕ) (rest : Bytes) (max : ℕ)
    → IsScalar cp
    → 0x800 ≤ cp
    → cp < 0x10000
    → 2 ≤ max
    → decode_front (0xe0 + cp / 4096) ((0x80 + cp / 64 % 64) ∷ (0x80 + cp % 64) ∷ rest) max
      ≡ some (3, cp)
decode_three cp rest max s lo hi hm =
    let half : cp / 4096 * 64 + cp / 64 % 64 ≡ cp / 64 = omega arith in
    let whole : cp / 64 * 64 + cp % 64 ≡ cp = omega arith in
    rw (
      front_three (cp / 4096) _ max (omega arith),
      decode_rest_step 1 (cp / 64 % 64) _ max 1 (cp / 4096) (omega arith) (omega arith)
          (omega arith),
      half,
      decode_rest_step 0 (cp % 64) rest (max - 1) 2 (cp / 64) (omega arith) (omega arith)
          (omega arith),
      whole,
      decode_rest_end rest (max - 1 - 1) 3 cp s,
    )

decode_four :
    (cp : ℕ) (rest : Bytes) (max : ℕ)
    → IsScalar cp
    → 0x10000 ≤ cp
    → 3 ≤ max
    → decode_front
        (0xf0 + cp / 262144)
        ((0x80 + cp / 4096 % 64) ∷ (0x80 + cp / 64 % 64) ∷ (0x80 + cp % 64) ∷ rest)
        max
      ≡ some (4, cp)
decode_four cp rest max s lo hm =
    let third : cp / 262144 * 64 + cp / 4096 % 64 ≡ cp / 4096 = omega arith in
    let half : cp / 4096 * 64 + cp / 64 % 64 ≡ cp / 64 = omega arith in
    let whole : cp / 64 * 64 + cp % 64 ≡ cp = omega arith in
    rw (
      front_four (cp / 262144) _ max (omega arith),
      decode_rest_step 2 (cp / 4096 % 64) _ max 1 (cp / 262144) (omega arith) (omega arith)
          (omega arith),
      third,
      decode_rest_step 1 (cp / 64 % 64) _ (max - 1) 2 (cp / 4096) (omega arith) (omega arith)
          (omega arith),
      half,
      decode_rest_step 0 (cp % 64) rest (max - 1 - 1) 3 (cp / 64) (omega arith) (omega arith)
          (omega arith),
      whole,
      decode_rest_end rest (max - 1 - 1 - 1) 4 cp s,
    )

-- Every scalar value falls in one of four ranges, and its encoding has that many bytes.
pub encode_cases :
    (P : ℕ → Bytes → Type 0)
    → ((cp : ℕ) → cp < 0x80 → P cp (cp ∷ []))
    → ((cp : ℕ) → 0x80 ≤ cp → cp < 0x800 → P cp ((0xc0 + cp / 64) ∷ (0x80 + cp % 64) ∷ []))
    → ((cp : ℕ)
        → IsScalar cp
        → 0x800 ≤ cp
        → cp < 0x10000
        → P cp ((0xe0 + cp / 4096) ∷ (0x80 + cp / 64 % 64) ∷ (0x80 + cp % 64) ∷ []))
    → ((cp : ℕ)
        → IsScalar cp
        → 0x10000 ≤ cp
        → P cp (
            (0xf0 + cp / 262144)
            ∷ (0x80 + cp / 4096 % 64)
            ∷ (0x80 + cp / 64 % 64)
            ∷ (0x80 + cp % 64)
            ∷ []))
    → (cp : ℕ) → IsScalar cp
    → P cp (encode cp)
unfolding encode
encode_cases P one two three four cp s = elim (Bool-cases (ltb cp 0x80)) [
  | inl a ↦ rw a (one cp (ground arith))
  | inr a ↦ elim (Bool-cases (ltb cp 0x800)) [
    | inl b ↦ rw (a, b) (two cp (ground arith) (ground arith))
    | inr b ↦ elim (Bool-cases (ltb cp 0x10000)) [
      | inl c ↦ rw (a, b, c) (three cp s (ground arith) (ground arith))
      | inr c ↦ rw (a, b, c) (four cp s (ground arith))
    ]
  ]
]

-- Where `max` is positive the decoder goes by the first byte.
utf8_to_ucs4_front :
    (c : ℕ) (src : Bytes) (max : ℕ)
    → 0 < max
    → utf8_to_ucs4 (c ∷ src) max ≡ decode_front c src (max - 1)
unfolding utf8_to_ucs4
utf8_to_ucs4_front c src max h = ground arith

-- The decoder reads back every character from its encoding, whatever follows it, where `max` leaves
-- room for the encoding, and returns the encoding's length.
pub utf8_to_ucs4-encode :
    (cp : ℕ) (rest : Bytes) (max : ℕ)
    → IsScalar cp
    → length (encode cp) ≤ max
    → utf8_to_ucs4 (encode cp ++ rest) max ≡ some (length (encode cp), cp)
utf8_to_ucs4-encode cp rest max =
    encode_cases (λ cp e. length e ≤ max → utf8_to_ucs4 (e ++ rest) max ≡ some (length e, cp))
      (λ cp lo fits. utf8_to_ucs4_front cp _ max (omega arith) ∙ front_one cp rest (max - 1) lo)
      (λ cp lo hi fits.
        utf8_to_ucs4_front _ _ max (omega arith) ∙ decode_two cp rest (max - 1) lo hi (omega arith))
      (λ cp s lo hi fits.
        utf8_to_ucs4_front _ _ max (omega arith)
        ∙ decode_three cp rest (max - 1) s lo hi (omega arith))
      (λ cp s lo fits.
        utf8_to_ucs4_front _ _ max (omega arith) ∙ decode_four cp rest (max - 1) s lo (omega arith))
      cp

unfoldable pub encode_all : List ℕ → Bytes
encode_all [] = []
encode_all (cp ∷ cps) = encode cp ++ encode_all cps

-- A text that a C string can hold.
abbrev pub IsText : List ℕ → Type 0
IsText = All (λ cp. IsScalar cp × (0 < cp))
