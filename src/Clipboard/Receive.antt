-- ===== src/Clipboard/Receive.antt =====
-- The functions of app/src/main/cpp/lorie/clipboard.c that take a selection from an X client:
-- lorieSelectionRequest, lorieHasAtom, lorieHandleSelection, lorieProcSendEvent and
-- lorieSelectionCallback. A read or a write outside a block is `none`.
use termux_x11_extra.Base.{
  ℕ, zero, suc, ◌+◌, ◌*◌, Bool, true, false, ◌&&◌, ◌||◌, List, [], ◌∷◌, ◌++◌, Option, none, some,
  ◌==◌, ltb, if◌then◌else◌, length,
}
use mathlib.Core.Option
use termux_x11_extra.Text.{Bytes, convert_lf, latin1_to_utf8, check_utf8, c_string}
use termux_x11_extra.Clipboard.{
  Atoms, Property, Lookup, refused, found, Effect, selection_request, data_sent, passed_on, XServer,
  Clipboard, xa_atom,
}

abbrev pub request_of : ℕ → ℕ → Lookup → List Effect
request_of selection target (refused rc) = []
request_of selection target (found before s behind) =
    selection_request s.client s.window selection target ∷ []

-- lorieSelectionRequest
unfoldable pub request_selection : XServer → Clipboard → ℕ → ℕ → List Effect
request_selection x c selection target =
    if c.enabled
    then request_of selection target (x.find_selection c.selections x.server_client selection)
    else []

-- lorieHasAtom
unfoldable pub has_atom : ℕ → List ℕ → ℕ → Option Bool
has_atom atom list zero = some false
has_atom atom [] (suc size) = none
has_atom atom (a ∷ list) (suc size) =
    let rest = has_atom atom list size in if a == atom then some true else rest

-- The `size` bytes that the loop of lorieConvertLF reads.
unfoldable pub first_bytes : ℕ → Bytes → Option Bytes
first_bytes zero u = some []
first_bytes (suc n) [] = none
first_bytes (suc n) (c ∷ u) = Option.map (λ s. c ∷ s) (first_bytes n u)

-- The target that is asked for, the first of the two that the owner has.
abbrev pub target_of : Atoms → Option Bool → Option Bool → Option (Option ℕ)
target_of a none s = none
target_of a (some true) s = some (some a.utf8_string)
target_of a (some false) none = none
target_of a (some false) (some true) = some (some a.string)
target_of a (some false) (some false) = some none

abbrev pub request_target : XServer → Clipboard → Option ℕ → List Effect
request_target x c none = []
request_target x c (some target) = request_selection x c x.atoms.clipboard target

-- The branch of the targets.
unfoldable pub handle_targets : XServer → Clipboard → Property → Option (List Effect)
unfolding has_atom
handle_targets x c p =
    let utf8 = has_atom x.atoms.utf8_string p.atoms p.size in
    let string = has_atom x.atoms.string p.atoms p.size in
    Option.map (request_target x c) (target_of x.atoms utf8 string)

-- What is sent of the array `utf8`, of `(prop->size + 1) * 2` zeros before.
abbrev pub send_within : ℕ → Option Bytes → Option (List Effect)
send_within room none = none
send_within room (some out) = if ltb (length out) room then some (data_sent out ∷ []) else none

-- The branch of STRING, on the bytes of the property.
abbrev pub handle_string : ℕ → Option Bytes → Option (List Effect)
handle_string size none = none
handle_string size (some s) = send_within ((size + 1) * 2) (latin1_to_utf8 (convert_lf s ++ 0 ∷ []))

abbrev pub send_filtered : Option Bytes → Option (List Effect)
send_filtered none = none
send_filtered (some s) = some (data_sent (c_string (convert_lf s)) ∷ [])

-- The branch of UTF8_STRING, after its check.
abbrev pub handle_utf8 : Option Bool → Option Bytes → Option (List Effect)
handle_utf8 none s = none
handle_utf8 (some false) s = some []
handle_utf8 (some true) s = send_filtered s

abbrev pub handle_property : XServer → Clipboard → ℕ → Option Property → Option (List Effect)
handle_property x c target none = some []
handle_property x c target (some p) =
    let a = x.atoms in
    if target == a.targets && (p.type == xa_atom && p.format == 32)
    then handle_targets x c p
    else if target == a.string && (p.type == a.string && p.format == 8)
    then handle_string p.size (first_bytes p.size p.bytes)
    else if target == a.utf8_string && (p.type == a.utf8_string && p.format == 8)
    then handle_utf8 (check_utf8 p.bytes p.size) (first_bytes p.size p.bytes)
    else some []

-- lorieHandleSelection
unfoldable pub handle_selection : XServer → Clipboard → ℕ → Option (List Effect)
unfolding handle_targets first_bytes check_utf8
handle_selection x c target =
    let a = x.atoms in
    if target == a.targets || (target == a.string || target == a.utf8_string)
    then handle_property x c target (x.find_property target)
    else some []

-- The event of a SendEvent request.
pub record SentEvent : Type 0 where
  pub is_notify : Bool
  pub requestor : ℕ
  pub selection : ℕ
  pub target : ℕ
  pub property : ℕ

-- lorieProcSendEvent
unfoldable pub send_event : XServer → Clipboard → SentEvent → Option (List Effect)
unfolding handle_selection
send_event x c e =
    Option.map (λ es. es ++ passed_on ∷ [])
      (if c.enabled
          && (e.requestor == x.root
              && (e.is_notify && (e.selection == x.atoms.clipboard && e.target == e.property)))
        then handle_selection x c e.target
        else some [])

-- lorieSelectionCallback
unfoldable pub selection_changed : XServer → Clipboard → ℕ → Bool → List Effect
unfolding request_selection
selection_changed x c selection sets_owner =
    if c.enabled && (selection == x.atoms.clipboard && sets_owner)
    then request_selection x c x.atoms.clipboard x.atoms.targets
    else []
