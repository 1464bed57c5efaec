-- ===== src/Text.antt =====
-- The text conversions of app/src/main/cpp/lorie/clipboard.c, lines 36 to 180.
-- A pointer into memory is the list of the bytes from it to the end of its block: reading `*p` of
-- an empty list is a read outside the block, and gives `none`. A C string ends at its first 0.
pub mod Filter
pub mod Encoding
pub mod Check
pub mod Latin1
pub mod Overrun
mod Examples
use termux_x11_extra.Base.{
  ℕ, zero, suc, ◌+◌, ◌-◌, ◌*◌, ◌%◌, ◌^◌, bit_and, bit_or, Bool, true, false, not, ◌&&◌, ◌||◌, List,
  [], ◌∷◌, ◌++◌, Option, none, some, ltb, leb, ◌==◌, if◌then◌else◌, length, map,
}
use mathlib.Core.Option

abbrev pub Bytes : Type 0
Bytes = List ℕ

-- size_t of the 64-bit builds
abbrev pub size_mod : ℕ
size_mod = 2 ^ 64

-- What the loop writes to `dst`, which the callers have filled with zeros.
unfoldable pub convert_lf : Bytes → Bytes
convert_lf [] = []
convert_lf (c ∷ src) = let rest = convert_lf src in if c == b'\r' then rest else c ∷ rest

-- What is written to `out` for one byte of `in`.
abbrev pub latin1_unit : ℕ → Bytes
latin1_unit c =
    if ltb c 128
    then c ∷ []
    else (0xc2 + (if ltb 0xbf c then 1 else 0)) ∷ (bit_and c 0x3f + 0x80) ∷ []

unfoldable pub latin1_to_utf8 : Bytes → Option Bytes
latin1_to_utf8 [] = none
latin1_to_utf8 (c ∷ rest) =
    let out = latin1_to_utf8 rest in
    if c == 0 then some [] else Option.map (λ o. latin1_unit c ++ o) out

abbrev pub is_continuation : ℕ → Bool
is_continuation c = bit_and c 0xc0 == 0x80

-- `p[0]` is read, and then tested.
abbrev pub test_front : (ℕ → Bool) → Bytes → Option Bool
test_front p [] = none
test_front p (c ∷ u) = some (p c)

-- The bytes behind the front one, for the reads `utf[ix + 2]` and `utf[ix + 3]`.
abbrev pub behind : Bytes → Bytes
behind [] = []
behind (c ∷ u) = u

-- A test of a further byte is made, and its byte read, only where the tests before it passed.
abbrev pub and_then : Option Bool → Option Bool → Option Bool
and_then none k = none
and_then (some false) k = some false
and_then (some true) k = k

-- By how much one round of the loop in lorieCheckUTF8 moves `ix` on from the byte `c`, `u` standing
-- behind it: 0 stands for `return 0`.
unit_length : ℕ → Bytes → Option ℕ
unit_length c u =
    if bit_and c 0x80 == 0
    then some 1
    else if bit_and c 0xe0 == 0xe0
    then if bit_and c 0xf0 == 0xf0
      then Option.map (λ b. if b then 4 else 0)
          (and_then (test_front is_continuation u) (
            and_then (test_front is_continuation (behind u)) (
              if bit_and c 0xf8 == 0xf0
              then test_front is_continuation (behind (behind u))
              else some false)))
      else Option.map (λ b. if b then 3 else 0)
          (and_then (test_front is_continuation u) (test_front is_continuation (behind u)))
    else Option.map (λ b. if b then 2 else 0) (test_front is_continuation u)

-- `ix` is an int, which the conversion to size_t in `ix < size` keeps. Past 2^31 - 1 it overflows, and
-- what is read then is not determined: none. The first argument counts the bytes that the round before
-- has still to step over.
check_from : ℕ → Bytes → ℕ → ℕ → Option Bool
unfolding unit_length
check_from (suc k) [] ix size = none
check_from (suc k) (c ∷ u) ix size = check_from k u (ix + 1) size
check_from zero [] ix size = none
check_from zero (c ∷ u) ix size = elim (c == 0 || leb size ix) [
  | true ↦ some true
  | false ↦ elim (unit_length c u) [
    | none ↦ none
    | some zero ↦ some false
    | some (suc k) ↦ elim (ltb (ix + suc k) (2 ^ 31)) [
      | true ↦ check_from k u (ix + 1) size
      | false ↦ none
    ]
  ]
]

unfoldable pub check_utf8 : Bytes → ℕ → Option Bool
unfolding check_from
check_utf8 utf size = check_from 0 utf 0 size

-- The loop over the continuation characters of an invalid sequence.
skip_continuations : Bytes → ℕ → ℕ → Option ℕ
skip_continuations [] max consumed = if max == 0 then some consumed else none
skip_continuations (c ∷ src) max consumed =
    let rest = skip_continuations src (max - 1) (consumed + 1) in
    if max == 0 then some consumed else if is_continuation c then rest else some consumed

abbrev pub replacement : ℕ
replacement = 0xfffd

-- The test for surrogates at the end.
abbrev pub drop_surrogate : ℕ → ℕ
drop_surrogate dst = if leb 0xd800 dst && ltb dst 0xe000 then replacement else dst

-- `while (count--)`. The result is the return value and `*dst`.
decode_rest : ℕ → Bytes → ℕ → ℕ → ℕ → Option (ℕ × ℕ)
decode_rest zero src max consumed dst = some (consumed, drop_surrogate dst)
decode_rest (suc count) [] max consumed dst =
    if max == 0 then some (consumed + 1, replacement) else none
decode_rest (suc count) (c ∷ src) max consumed dst =
    let rest =
      decode_rest count src (max - 1) (consumed + 1)
        (bit_or (dst * 64 % 2 ^ 32) (bit_and c 0x3f)) in
    if max == 0 || not (is_continuation c) then some (consumed + 1, replacement) else rest

-- The branch on the first byte.
decode_front : ℕ → Bytes → ℕ → Option (ℕ × ℕ)
unfolding decode_rest skip_continuations
decode_front c src max =
    if bit_and c 0x80 == 0
    then decode_rest 0 src max 1 c
    else if bit_and c 0xe0 == 0xc0
    then decode_rest 1 src max 1 (bit_and c 0x1f)
    else if bit_and c 0xf0 == 0xe0
    then decode_rest 2 src max 1 (bit_and c 0x0f)
    else if bit_and c 0xf8 == 0xf0
    then decode_rest 3 src max 1 (bit_and c 0x07)
    else Option.map (λ consumed. (consumed, replacement)) (skip_continuations src max 1)

unfoldable pub utf8_to_ucs4 : Bytes → ℕ → Option (ℕ × ℕ)
unfolding decode_front
utf8_to_ucs4 [] max = if max == 0 then some (0, replacement) else none
utf8_to_ucs4 (c ∷ src) max =
    if max == 0 then some (0, replacement) else decode_front c src (max - 1)

-- What lorieUtf8ToLatin1 writes for one character.
abbrev pub latin1_of : ℕ → ℕ
latin1_of ucs = if ltb 0xff ucs then b'?' else ucs

-- The characters that a pass over the string at `in` meets. `pending` bytes of the last character
-- have still to be stepped over; `in_len` has been reduced by all of them already.
decode_all : ℕ → Bytes → ℕ → Option (List ℕ)
decode_all (suc pending) [] in_len = if in_len == 0 then some [] else none
decode_all (suc pending) (c ∷ u) in_len = decode_all pending u in_len
decode_all zero [] in_len = if in_len == 0 then some [] else none
decode_all zero (c ∷ u) in_len = elim (in_len == 0 || c == 0) [
  | true ↦ some []
  | false ↦ elim (utf8_to_ucs4 (c ∷ u) in_len) [
    | none ↦ none
    | some (len, ucs) ↦
        Option.map (λ cs. ucs ∷ cs) (decode_all (len - 1) u ((in_len + size_mod - len) % size_mod))
  ]
]

-- `strdup` of a block: its bytes up to the first 0.
abbrev pub c_string : Bytes → Bytes
c_string [] = []
c_string (c ∷ s) = let rest = c_string s in if c == 0 then [] else c ∷ rest

-- The first pass counts, the second writes into the `sz + 1` bytes that were reserved: a write
-- outside them gives `none`. The two passes start from different bounds on the length.
unfoldable pub utf8_to_latin1 : Bytes → Option Bytes
unfolding decode_all
utf8_to_latin1 src = elim (decode_all 0 src (size_mod - 1)) [
  | none ↦ none
  | some counted ↦ elim (decode_all 0 src 4294967295) [
    | none ↦ none
    | some met ↦
        if leb (length met) (length counted + 1) then some (c_string (map latin1_of met)) else none
  ]
]
