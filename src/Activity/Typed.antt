-- ===== src/Activity/Typed.antt =====
-- sendTextEvent of app/src/main/cpp/lorie/activity.c on a text in UTF-8.
use mathlib.Core.List.{append-nil}
use termux_x11_extra.Base.{
  ℕ, zero, suc, ◌≤◌, ◌<◌, ◌≡◌, refl, ap, ◌∙◌, List, [], ◌∷◌, ◌++◌, some, arith, ◌==◌, ==-false,
  if-false, length, length-append, map,
}
use termux_x11_extra.Text.{Bytes}
use termux_x11_extra.Text.Encoding.{IsScalar, IsText, encode, encode_cases, encode_all}
use termux_x11_extra.Channel.Dispatch.{unicode}
use termux_x11_extra.Activity.{Abi, IsAbi}
use termux_x11_extra.Activity.Send.{send_text_event, wide, Tables, text_characters, send_calls}
use termux_x11_extra.Activity.Serve.{serve_all}
use termux_x11_extra.Activity.Transfer.{drop-append}
use termux_x11_extra.Activity.Whole.{IsLibrary}
use termux_x11_extra.Activity.Arrival.{meanings, serve_all-send_calls}

-- In a locale of UTF-8 mbrtowc reads each character but 0 from its encoding.
abbrev pub IsUtf8 : Tables → Type 0
IsUtf8 t =
    (cp : ℕ) (rest : Bytes)
    → IsScalar cp
    → 0 < cp
    → t.mbrtowc (encode cp ++ rest) ≡ wide cp (length (encode cp))

-- The encoding of a character begins with a byte that is not 0.
abbrev StartsNonzero : Bytes → Type 0
StartsNonzero [] = ⊥
StartsNonzero (b ∷ bs) = 0 < b

encode-StartsNonzero : (cp : ℕ) → IsScalar cp → 0 < cp → StartsNonzero (encode cp)
encode-StartsNonzero cp scalar =
    encode_cases (λ cp e. 0 < cp → StartsNonzero e) (λ cp small positive. positive)
      (λ cp low high positive. omega arith) (λ cp s low high positive. omega arith)
      (λ cp s low positive. omega arith) cp scalar

characters_step :
    (t : Tables) (fuel cp : ℕ) (e rest : Bytes)
    → StartsNonzero e
    → t.mbrtowc (e ++ rest) ≡ wide cp (length e)
    → text_characters t (suc fuel) (e ++ rest) ≡ cp ∷ text_characters t fuel rest
unfolding text_characters
characters_step t fuel cp [] rest starts read = absurd starts
characters_step t fuel cp (b ∷ e) rest starts read =
    rw (==-false b 0 (λ e. omega (arith, e)), read, drop-append (b ∷ e) rest (length (b ∷ e)) refl)
      (if-false (suc (length e) == 0) _ _ (ground arith))

starts-length : (e : Bytes) → StartsNonzero e → 0 < length e
starts-length [] starts = absurd starts
starts-length (b ∷ e) starts = omega arith

shorter :
    (cp : ℕ) (cps : List ℕ) (n : ℕ)
    → IsScalar cp
    → 0 < cp
    → length (encode_all (cp ∷ cps)) ≤ n
    → length (encode_all cps) < n
unfolding encode_all
shorter cp cps n scalar positive enough = omega (
  arith,
  length-append (encode cp) (encode_all cps),
  starts-length (encode cp) (encode-StartsNonzero cp scalar positive),
)

text_characters-encode_all :
    (t : Tables) (utf8 : IsUtf8 t) (fuel : ℕ) (cps : List ℕ)
    → IsText cps
    → length (encode_all cps) ≤ fuel
    → text_characters t fuel (encode_all cps) ≡ cps
unfolding text_characters encode_all
text_characters-encode_all t utf8 zero [] is enough = refl
text_characters-encode_all t utf8 (suc fuel) [] is enough = refl
text_characters-encode_all t utf8 zero (cp ∷ cps) ((scalar, positive), is) enough =
    absurd (omega (arith, shorter cp cps 0 scalar positive enough))
text_characters-encode_all t utf8 (suc fuel) (cp ∷ cps) ((scalar, positive), is) enough =
    characters_step t fuel cp (encode cp) (encode_all cps) (encode-StartsNonzero cp scalar positive)
      (utf8 cp (encode_all cps) scalar positive)
    ∙ ap (λ l. cp ∷ l)
        (text_characters-encode_all t utf8 fuel cps is
          (omega (arith, shorter cp cps (suc fuel) scalar positive enough)))

-- A text of the activity: the server reads its characters, one event each, in order.
pub serve_all-typed :
    {V : Type 0} (abi : Abi V) (t : Tables) (cps : List ℕ)
    → IsAbi abi
    → IsLibrary t
    → IsUtf8 t
    → IsText cps
    → let s = send_calls abi t (send_text_event (some (encode_all cps)) ∷ []) in
      serve_all abi (length s) s ≡ (map unicode cps, [])
unfolding meanings
serve_all-typed abi t cps is library utf8 text =
    serve_all-send_calls abi t (send_text_event (some (encode_all cps)) ∷ []) is library (tt, tt)
      (tt, tt)
    ∙ rw
        (
          append-nil,
          text_characters-encode_all t utf8 (length (encode_all cps)) cps text (omega arith),
        )
        refl
