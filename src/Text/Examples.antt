-- ===== src/Text/Examples.antt =====
-- Tests of the text conversions on texts that can be followed in clipboard.c, and the properties at
-- concrete texts.
use termux_x11_extra.Base.{◌*◌, ◌≤◌, ◌≡◌, refl, Bool, [], ◌∷◌, ◌++◌, some, true, arith, length}
use termux_x11_extra.Text.{
  Bytes, convert_lf, latin1_to_utf8, check_utf8, utf8_to_ucs4, utf8_to_latin1,
}
use termux_x11_extra.Text.Check.{check_utf8_total}
use termux_x11_extra.Text.Latin1.{utf8_to_latin1-latin1_to_utf8}

-- "a", the euro sign, "z"
abbrev euro : Bytes
euro = b'a' ∷ 0xe2 ∷ 0x82 ∷ 0xac ∷ b'z' ∷ []

no_cr : convert_lf (b'a' ∷ 13 ∷ 10 ∷ []) ≡ b'a' ∷ 10 ∷ []
unfolding convert_lf
no_cr = refl

euro_decoded : utf8_to_ucs4 (0xe2 ∷ 0x82 ∷ 0xac ∷ []) 3 ≡ some (3, 0x20ac)
unfolding utf8_to_ucs4
euro_decoded = refl

surrogate_replaced : utf8_to_ucs4 (0xed ∷ 0xa0 ∷ 0x80 ∷ 0 ∷ []) 9 ≡ some (3, 0xfffd)
unfolding utf8_to_ucs4
surrogate_replaced = refl

euro_as_latin1 : utf8_to_latin1 (euro ++ 0 ∷ []) ≡ some (b'a' ∷ b'?' ∷ b'z' ∷ [])
unfolding utf8_to_latin1 utf8_to_ucs4
euro_as_latin1 = refl

euro_checked : check_utf8 (euro ++ 0 ∷ []) 5 ≡ some true
unfolding check_utf8
euro_checked = refl

abbrev line : Bytes
line = b'a' ∷ 13 ∷ 10 ∷ []

check_utf8_total_example : (b : Bool) × (check_utf8 ((0xe2 ∷ []) ++ 0 ∷ []) 1 ≡ some b)
check_utf8_total_example = check_utf8_total (0xe2 ∷ []) [] 1 (omega arith)

abbrev smile : Bytes
smile = b'a' ∷ 0x20ac ∷ 0x1f600 ∷ []

utf8_to_latin1-latin1_to_utf8_example :
    (u : Bytes) × (latin1_to_utf8 ((0xe9 ∷ b'z' ∷ []) ++ 0 ∷ []) ≡ some u)
    × (length u ≤ 2 * 2)
    × (utf8_to_latin1 (u ++ 0 ∷ []) ≡ some (0xe9 ∷ b'z' ∷ []))
utf8_to_latin1-latin1_to_utf8_example =
    utf8_to_latin1-latin1_to_utf8 (0xe9 ∷ b'z' ∷ []) [] [] (omega arith) (omega arith)
