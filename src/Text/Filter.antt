-- ===== src/Text/Filter.antt =====
-- lorieConvertLF and lorieLatin1ToUTF8 of clipboard.c: what they write, and that it fits.
use termux_x11_extra.Base.{
  ℕ, ◌*◌, ◌≤◌, ◌<◌, ◌≡◌, refl, ◌≢◌, [], ◌∷◌, ◌++◌, some, arith, ◌==◌, length, length-append, All,
  Bool-cases, inl, inr,
}
use termux_x11_extra.Base.Bits.{bit_and_0x3f}
use termux_x11_extra.Text.{Bytes, convert_lf, latin1_unit, latin1_to_utf8}
use termux_x11_extra.Text.Encoding.{encode, encode_all}

-- The bytes from 1 to 255, which are the characters of a Latin-1 string.
abbrev pub IsLatin1 : Bytes → Type 0
IsLatin1 = All (λ c. (0 < c) × (c < 256))

abbrev pub NoReturn : Bytes → Type 0
NoReturn = All (λ c. c ≢ b'\r')

-- The filtered text holds no carriage return, is no longer than the source, keeps what holds of all
-- the source's bytes, and equals the source where that holds no carriage return.
pub convert_lf_lem :
    (src : Bytes)
    → NoReturn (convert_lf src)
      × (length (convert_lf src) ≤ length src)
      × (IsLatin1 src → IsLatin1 (convert_lf src))
      × (NoReturn src → convert_lf src ≡ src)
unfolding convert_lf
convert_lf_lem [] = (tt, omega arith, λ h. h, λ h. refl)
convert_lf_lem (c ∷ src) =
    let (no_cr, short, latin, same) = convert_lf_lem src in
    elim (Bool-cases (c == b'\r')) [
      | inl e ↦ rw e (no_cr, omega arith, (λ h. latin h.1), λ h. absurd (h.0 (ground arith)))
      | inr e ↦
          rw e
            ((ground arith, no_cr), omega arith, (λ h. (h.0, latin h.1)), λ h. λ i. c ∷ same h.1 i)
    ]

latin1_unit-encode : (c : ℕ) → c < 256 → latin1_unit c ≡ encode c
unfolding encode
latin1_unit-encode c h = ground (arith, bit_and_0x3f c)

-- On a string of the bytes 1 to 255 the conversion reads nothing behind the terminator, and writes
-- the UTF-8 encoding of the characters.
pub latin1_to_utf8-encode :
    (s rest : Bytes) → IsLatin1 s → latin1_to_utf8 (s ++ 0 ∷ rest) ≡ some (encode_all s)
unfolding latin1_to_utf8 encode_all
latin1_to_utf8-encode [] rest h = refl
latin1_to_utf8-encode (c ∷ s) rest h =
    ground (arith, latin1_to_utf8-encode s rest h.1, latin1_unit-encode c h.0.1)

encode-le_two : (c : ℕ) → c < 256 → length (encode c) ≤ 2
unfolding encode
encode-le_two c h = ground arith

-- The encoding of Latin-1 characters takes at most two bytes each.
pub encode_all-le : (s : Bytes) → IsLatin1 s → length (encode_all s) ≤ length s * 2
unfolding encode_all
encode_all-le [] h = omega arith
encode_all-le (c ∷ s) h =
    omega
      (arith, encode_all-le s h.1, encode-le_two c h.0.1, length-append (encode c) (encode_all s))
