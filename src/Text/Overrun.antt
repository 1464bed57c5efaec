-- ===== src/Text/Overrun.antt =====
-- Where the conversions of clipboard.c read outside their blocks.
use termux_x11_extra.Base.{
  ℕ, ◌+◌, ◌-◌, ◌%◌, ◌≤◌, ◌<◌, ◌≡◌, refl, [], ◌∷◌, ◌++◌, some, none, true, arith, length, All,
  ==-false,
}
use termux_x11_extra.Base.Bits.{bit_and_0x80, bit_and_0xc0, bit_and_0xe0}
use termux_x11_extra.Text.{
  Bytes, size_mod, decode_rest, decode_front, utf8_to_ucs4, decode_all, check_from, unit_length,
  check_utf8, utf8_to_latin1,
}

-- The bytes from 1 to 127.
abbrev pub IsAscii : Bytes → Type 0
IsAscii = All (λ c. (0 < c) × (c < 128))

-- The lead bytes of two-byte characters.
abbrev pub IsLead : ℕ → Type 0
IsLead c = (0xc2 ≤ c) × (c < 0xe0)

-- A lead byte in front of the terminator takes the terminator for its second byte.
decode_truncated :
    (c : ℕ) (max : ℕ) → IsLead c → 1 < max → utf8_to_ucs4 (c ∷ 0 ∷ []) max ≡ some (2, 0xfffd)
unfolding utf8_to_ucs4 decode_front decode_rest
decode_truncated c max h room = ground (arith, bit_and_0x80 c, bit_and_0xe0 c)

decode_ascii :
    (c : ℕ) (u : Bytes) (max : ℕ)
    → 0 < c
    → c < 128
    → 0 < max
    → utf8_to_ucs4 (c ∷ u) max ≡ some (1, c)
unfolding utf8_to_ucs4 decode_front decode_rest
decode_ascii c u max pos lo room = ground (arith, bit_and_0x80 c)

decode_all-truncated :
    (s : Bytes) (c in_len : ℕ)
    → IsAscii s
    → IsLead c
    → length s + 2 < in_len
    → in_len < size_mod
    → decode_all 0 (s ++ c ∷ 0 ∷ []) in_len ≡ none
unfolding decode_all
decode_all-truncated [] c in_len a h room bound =
    let left : (in_len + size_mod - 2) % size_mod ≡ in_len - 2 = omega arith in
    rw
      (
        decode_all,
        ==-false in_len 0 (omega arith),
        ==-false c 0 (omega arith),
        decode_truncated c in_len h (omega arith),
        left,
      )
      (rw (==-false (in_len - 2) 0 (omega arith)))
decode_all-truncated (d ∷ s) c in_len a h room bound =
    let left : (in_len + size_mod - 1) % size_mod ≡ in_len - 1 = omega arith in
    rw (
      decode_all,
      ==-false in_len 0 (omega arith),
      ==-false d 0 (omega arith),
      decode_ascii d _ in_len a.0.0 a.0.1 (omega arith),
      left,
      decode_all-truncated s c (in_len - 1) a.1 h (omega arith) (omega arith),
    )

-- A C string that ends in the first byte of a two-byte character makes the conversion step over its
-- terminator and read behind it: for any ASCII text before that byte, up to the lengths that the
-- loop covers.
pub utf8_to_latin1-truncated :
    (s : Bytes) (c : ℕ)
    → IsAscii s
    → IsLead c
    → length s + 2 < size_mod - 1
    → utf8_to_latin1 (s ++ c ∷ 0 ∷ []) ≡ none
unfolding utf8_to_latin1
utf8_to_latin1-truncated s c a h room =
    rw (utf8_to_latin1, decode_all-truncated s c (size_mod - 1) a h room (omega arith))

unit_ascii : (c : ℕ) (t : Bytes) → c < 128 → unit_length c t ≡ some 1
unfolding unit_length
unit_ascii c t h = ground (arith, bit_and_0x80 c)

unit_stray :
    (c d : ℕ) (u : Bytes)
    → 0x80 ≤ c
    → c < 0xc0
    → 0x80 ≤ d
    → d < 0xc0
    → unit_length c (d ∷ u) ≡ some 2
unfolding unit_length
unit_stray c d u c1 c2 d1 d2 = ground (arith, bit_and_0x80 c, bit_and_0xe0 c, bit_and_0xc0 d)

check_from-unterminated :
    (s : Bytes) (ix size : ℕ) → IsAscii s → ix + length s ≤ size → check_from 0 s ix size ≡ none
unfolding check_from
check_from-unterminated [] ix size a h = refl
check_from-unterminated (c ∷ s) ix size a h =
    ground
      (arith, unit_ascii c s a.0.1, check_from-unterminated s (ix + 1) size a.1 (omega (arith, h)))

-- The check reads `utf[size]` before it compares `size`: on a block of exactly `size` ASCII bytes,
-- with no terminator, it reads one byte behind the block.
pub check_utf8-unterminated : (s : Bytes) → IsAscii s → check_utf8 s (length s) ≡ none
unfolding check_utf8
check_utf8-unterminated s a = check_from-unterminated s 0 (length s) a (omega arith)

-- Two continuation bytes with no lead byte pass for a two-byte character, in front of any bytes that
-- pass from the index 2 on.
check_utf8-stray :
    (c d : ℕ) (u : Bytes) (size : ℕ)
    → 0x80 ≤ c
    → c < 0xc0
    → 0x80 ≤ d
    → d < 0xc0
    → 0 < size
    → check_from 0 u 2 size ≡ some true
    → check_utf8 (c ∷ d ∷ u) size ≡ some true
unfolding check_utf8 check_from
check_utf8-stray c d u size c1 c2 d1 d2 some_ h = ground (arith, unit_stray c d u c1 c2 d1 d2, h)
