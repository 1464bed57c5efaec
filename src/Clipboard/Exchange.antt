-- ===== src/Clipboard/Exchange.antt =====
-- A text of an X client on its way to the activity and back to an X client, by
-- app/src/main/cpp/lorie/clipboard.c: lorieHandleSelection and lorieConvertSelection.
use mathlib.Core.Path.{subst}
use termux_x11_extra.Base.{
  ◌+◌, ◌*◌, ◌-◌, ◌^◌, ◌<◌, ◌≡◌, ◌≢◌, refl, ap, sym, ◌∙◌, true, List, [], ◌∷◌, ◌++◌, Option, some,
  ◌==◌, ltb, arith, length, if-true, if-false, ==_refl, ==-false, ◌&&◌, ◌||◌,
}
use mathlib.Core.Option
use termux_x11_extra.Text.{Bytes, convert_lf, utf8_to_latin1}
use termux_x11_extra.Text.Filter.{IsLatin1, convert_lf_lem}
use termux_x11_extra.Text.Latin1.{utf8_to_latin1-latin1_to_utf8}
use termux_x11_extra.Clipboard.{Property, Effect, data_sent, XServer, Clipboard, bytes, xa_string}
use termux_x11_extra.Clipboard.Receive.{
  first_bytes, send_within, handle_string, handle_property, handle_selection,
}
use termux_x11_extra.Clipboard.Convert.{put, reply_data, put_latin1}

first_bytes-append : (s rest : Bytes) → first_bytes (length s) (s ++ rest) ≡ some s
unfolding first_bytes
first_bytes-append [] rest = refl
first_bytes-append (c ∷ s) rest = ap (Option.map (λ u. c ∷ u)) (first_bytes-append s rest)

-- A property of type STRING with the given bytes, in a block that goes on with others.
abbrev pub string_property : XServer → Bytes → Bytes → Property
string_property x s rest = record {
  type = x.atoms.string;
  format = 8;
  size = length s;
  atoms = [];
  bytes = s ++ rest;
}

-- It is sent to the activity as a text that a client gets back without its carriage returns.
abbrev pub ComesBack : XServer → Bytes → Option (List Effect) → Type 0
ComesBack x s o =
    (u : Bytes) × (o ≡ some (data_sent u ∷ []))
    × (reply_data x x.atoms.string (u ++ 0 ∷ []) ≡ some (put xa_string (bytes (convert_lf s))))

reply_data-string :
    (x : XServer) (u latin1 : Bytes)
    → x.copied ≡ true
    → utf8_to_latin1 u ≡ some latin1
    → reply_data x x.atoms.string u ≡ some (put xa_string (bytes latin1))
reply_data-string x u latin1 copied is =
    if-true (x.atoms.string == x.atoms.string || x.atoms.string == x.atoms.text) _ _
      (ground (arith, ==_refl x.atoms.string))
    ∙ ap (put_latin1 x) is
    ∙ ap some (if-true x.copied _ _ copied)

handle_string-ComesBack :
    (x : XServer) (s : Bytes)
    → IsLatin1 s
    → length s < 2 ^ 31 - 1
    → x.copied ≡ true
    → ComesBack x s (handle_string (length s) (some s))
handle_string-ComesBack x s latin small copied =
    let (no_cr, short, keeps, same) = convert_lf_lem s in
    let (u, sent, room, back) =
      utf8_to_latin1-latin1_to_utf8 (convert_lf s) [] [] (keeps latin) (omega arith) in
    (
      u,
      ap (send_within ((length s + 1) * 2)) sent
          ∙ if-true (ltb (length u) ((length s + 1) * 2)) _ _ (ground arith),
      reply_data-string x (u ++ 0 ∷ []) (convert_lf s) copied back,
    )

handle_property-string :
    (x : XServer) (c : Clipboard) (s rest : Bytes)
    → x.atoms.string ≢ x.atoms.targets
    → handle_property x c x.atoms.string (some (string_property x s rest))
      ≡ handle_string (length s) (some s)
handle_property-string x c s rest other =
    let a = x.atoms in
    if-false (a.string == a.targets && _) _ _ (ground (arith, ==-false a.string a.targets other))
    ∙ if-true (a.string == a.string && (a.string == a.string && 8 == 8)) _ _
        (ground (arith, ==_refl a.string))
    ∙ ap (handle_string (length s)) (first_bytes-append s rest)

-- A STRING property of Latin-1 bytes other than 0, fewer than 2 ^ 31 - 1, is sent to the activity as a
-- text whose conversion for a client that asks for STRING gives the bytes without the carriage
-- returns; no read or write leaves a block. The atoms STRING and TARGETS differ and strdup returns
-- memory.
pub handle_selection-reply_data :
    (x : XServer) (c : Clipboard) (s rest : Bytes)
    → x.find_property x.atoms.string ≡ some (string_property x s rest)
    → x.atoms.string ≢ x.atoms.targets
    → IsLatin1 s
    → length s < 2 ^ 31 - 1
    → x.copied ≡ true
    → ComesBack x s (handle_selection x c x.atoms.string)
unfolding handle_selection
handle_selection-reply_data x c s rest is other latin small copied =
    let a = x.atoms in
    subst (ComesBack x s)
      (sym (
        if-true (a.string == a.targets || (a.string == a.string || a.string == a.utf8_string)) _ _
          (ground (arith, ==_refl a.string))
        ∙ ap (handle_property x c a.string) is
        ∙ handle_property-string x c s rest other))
      (handle_string-ComesBack x s latin small copied)
