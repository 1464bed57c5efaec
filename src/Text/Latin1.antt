-- ===== src/Text/Latin1.antt =====
-- lorieUtf8ToLatin1 of clipboard.c on the encodings of texts, and the round trip with
-- lorieLatin1ToUTF8.
use mathlib.Core.List.{append_assoc}
use termux_x11_extra.Base.{
  ℕ, suc, ◌+◌, ◌-◌, ◌*◌, ◌%◌, ◌^◌, ◌≤◌, ◌<◌, ◌≡◌, refl, ap, List, [], ◌∷◌, ◌++◌, map, some, arith,
  ==-false, length, length-append,
}
use termux_x11_extra.Text.{
  Bytes, size_mod, latin1_of, utf8_to_ucs4, decode_all, c_string, latin1_to_utf8, utf8_to_latin1,
}
use termux_x11_extra.Text.Encoding.{
  IsScalar, IsText, encode, encode_all, encode_cases, utf8_to_ucs4-encode,
}
use termux_x11_extra.Text.Filter.{IsLatin1, latin1_to_utf8-encode, encode_all-le}

-- One round: a character that the decoder reads, then the rest of the string.
decode_all_round :
    (c k ucs : ℕ) (u : Bytes) (in_len : ℕ) (cs : List ℕ)
    → 0 < c
    → suc k ≤ in_len
    → in_len < size_mod
    → utf8_to_ucs4 (c ∷ u) in_len ≡ some (suc k, ucs)
    → decode_all k u (in_len - suc k) ≡ some cs
    → decode_all 0 (c ∷ u) in_len ≡ some (ucs ∷ cs)
unfolding decode_all
decode_all_round c k ucs u in_len cs pos room bound read more =
    let back : suc k - 1 ≡ k = omega arith in
    let left : (in_len + size_mod - suc k) % size_mod ≡ in_len - suc k = omega arith in
    rw (
      decode_all,
      ==-false in_len 0 (omega arith),
      ==-false c 0 (omega arith),
      read,
      back,
      left,
      more,
    )

module _ (t : Bytes) (cs : List ℕ) where
  decode_all-encode :
      (cp in_len : ℕ)
      → IsScalar cp
      → 0 < cp
      → length (encode cp) ≤ in_len
      → in_len < size_mod
      → decode_all 0 t (in_len - length (encode cp)) ≡ some cs
      → decode_all 0 (encode cp ++ t) in_len ≡ some (cp ∷ cs)
  unfolding decode_all
  decode_all-encode cp in_len s pos room bound more =
      encode_cases
        (λ cp e.
          utf8_to_ucs4 (e ++ t) in_len ≡ some (length e, cp)
          → 0 < cp
          → length e ≤ in_len
          → decode_all 0 t (in_len - length e) ≡ some cs
          → decode_all 0 (e ++ t) in_len ≡ some (cp ∷ cs))
        (λ cp lo read pos room more. decode_all_round cp 0 cp t in_len cs pos room bound read more)
        (λ cp lo hi read pos room more.
          decode_all_round _ 1 cp _ in_len cs (omega arith) room bound read more)
        (λ cp s lo hi read pos room more.
          decode_all_round _ 2 cp _ in_len cs (omega arith) room bound read more)
        (λ cp s lo read pos room more.
          decode_all_round _ 3 cp _ in_len cs (omega arith) room bound read more)
        cp s (utf8_to_ucs4-encode cp t in_len s room) pos room more

decode_all-encode_all :
    (cps : List ℕ) (rest : Bytes) (in_len : ℕ)
    → IsText cps
    → length (encode_all cps) < in_len
    → in_len < size_mod
    → decode_all 0 (encode_all cps ++ 0 ∷ rest) in_len ≡ some cps
unfolding decode_all encode_all
decode_all-encode_all [] rest in_len h room bound = ground arith
decode_all-encode_all (cp ∷ cps) rest in_len h room bound =
    let whole = length-append (encode cp) (encode_all cps) in
    rw (append_assoc (encode cp) (encode_all cps) (0 ∷ rest)) (
      decode_all-encode (encode_all cps ++ 0 ∷ rest) cps cp in_len h.0.0 h.0.1 (omega arith) bound (
        decode_all-encode_all cps rest (in_len - length (encode cp)) h.1 (omega arith)
          (omega arith)))

c_string-latin1_of : (cps : List ℕ) → IsText cps → c_string (map latin1_of cps) ≡ map latin1_of cps
c_string-latin1_of [] h = refl
c_string-latin1_of (cp ∷ cps) h = ground (arith, c_string-latin1_of cps h.1)

-- On the encoding of a text shorter than 4294967295 bytes the conversion reads and writes inside
-- its blocks, and gives one byte for each character: the character itself up to 0xff, `?` above.
pub utf8_to_latin1-encode_all :
    (cps : List ℕ) (rest : Bytes)
    → IsText cps
    → length (encode_all cps) < 4294967295
    → utf8_to_latin1 (encode_all cps ++ 0 ∷ rest) ≡ some (map latin1_of cps)
unfolding utf8_to_latin1
utf8_to_latin1-encode_all cps rest h room = ground (
  arith,
  decode_all-encode_all cps rest (size_mod - 1) h,
  decode_all-encode_all cps rest 4294967295 h,
  c_string-latin1_of cps h,
)

IsText-Latin1 : (s : Bytes) → IsLatin1 s → IsText s
IsText-Latin1 [] h = tt
IsText-Latin1 (c ∷ s) h = (omega arith, IsText-Latin1 s h.1)

map-latin1_of : (s : Bytes) → IsLatin1 s → map latin1_of s ≡ s
map-latin1_of [] h = refl
map-latin1_of (c ∷ s) h = ground (arith, map-latin1_of s h.1)

-- A Latin-1 string of fewer than 2 ^ 31 - 1 bytes survives the conversion to UTF-8 and back.
pub utf8_to_latin1-latin1_to_utf8 :
    (s rest rest' : Bytes)
    → IsLatin1 s
    → length s < 2 ^ 31 - 1
    → (u : Bytes) × (latin1_to_utf8 (s ++ 0 ∷ rest) ≡ some u)
      × (length u ≤ length s * 2)
      × (utf8_to_latin1 (u ++ 0 ∷ rest') ≡ some s)
utf8_to_latin1-latin1_to_utf8 s rest rest' h short = (
  encode_all s,
  latin1_to_utf8-encode s rest h,
  encode_all-le s h,
  rw (utf8_to_latin1-encode_all s rest' (IsText-Latin1 s h) (omega (arith, encode_all-le s h)))
      (ap some (map-latin1_of s h)),
)
