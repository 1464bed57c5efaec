-- ===== src/Clipboard/Convert.antt =====
-- The functions of app/src/main/cpp/lorie/clipboard.c that give the clipboard of the activity to X
-- clients: lorieConvertSelection, lorieProcConvertSelection and lorieHandleClipboardData.
use termux_x11_extra.Base.{
  ℕ, zero, suc, Bool, false, ◌&&◌, ◌||◌, List, [], ◌∷◌, ◌++◌, Option, none, some, ◌==◌,
  if◌then◌else◌, length,
}
use termux_x11_extra.Text.{Bytes, utf8_to_latin1, c_string}
use termux_x11_extra.Clipboard.{
  Atoms, Content, numbers, bytes, Selection, Lookup, refused, found, DataTarget, Effect, notify,
  property_put, data_requested, passed_on, XServer, Clipboard, xa_atom, xa_integer, xa_string,
  bad_atom, bad_match, bad_alloc,
}

-- What lorieConvertSelection does for a target: it writes a property, it queues the request, or it
-- returns an error.
pub data Reply : Type 0 where
  put : ℕ → Content → Reply
  queue : Reply
  failed : ℕ → Reply

abbrev pub is_text : Atoms → ℕ → Bool
is_text a target = target == a.string || (target == a.text || target == a.utf8_string)

-- The branch without data.
abbrev pub reply_later : XServer → ℕ → Reply
reply_later x target =
    if is_text x.atoms target
    then (if x.allocated then queue else failed bad_alloc)
    else failed bad_match

abbrev pub put_latin1 : XServer → Option Bytes → Option Reply
put_latin1 x none = none
put_latin1 x (some latin1) =
    some (if x.copied then put xa_string (bytes latin1) else failed bad_alloc)

-- The branch with data.
abbrev pub reply_data : XServer → ℕ → Bytes → Option Reply
reply_data x target data' =
    let a = x.atoms in
    if target == a.string || target == a.text
    then put_latin1 x (utf8_to_latin1 data')
    else some (
        if target == a.utf8_string
        then put a.utf8_string (bytes (c_string data'))
        else failed bad_match)

abbrev pub reply_text : XServer → ℕ → Option Bytes → Option Reply
reply_text x target none = some (reply_later x target)
reply_text x target (some data') = reply_data x target data'

abbrev pub reply_of : XServer → Selection → ℕ → Option Bytes → Option Reply
reply_of x s target cached =
    let a = x.atoms in
    if target == a.targets
    then some
        (put xa_atom (numbers (a.targets ∷ a.timestamp ∷ a.string ∷ a.text ∷ a.utf8_string ∷ [])))
    else if target == a.timestamp
    then some (put xa_integer (numbers (s.last_changed ∷ [])))
    else reply_text x target cached

-- What lorieConvertSelection returns, the queue and the effects.
pub record Converted : Type 0 where
  pub rc : ℕ
  pub pending : List DataTarget
  pub effects : List Effect

abbrev pub fail : ℕ → List DataTarget → Converted
fail rc pending = record { rc = rc; pending = pending; effects = [] }

-- `realProperty`
abbrev pub real_property : DataTarget → ℕ
real_property t = if t.property == 0 then t.target else t.property

abbrev pub put_and_notify : XServer → DataTarget → List DataTarget → ℕ → Content → Converted
put_and_notify x t pending type content =
    let rc = x.change_property t.requestor (real_property t) type content in
    if rc == 0
    then record {
      rc = 0;
      pending = pending;
      effects = property_put t.requestor (real_property t) type content ∷ notify t ∷ [];
    }
    else fail rc pending

abbrev pub follow : XServer → DataTarget → List DataTarget → Option Reply → Option Converted
follow x t pending none = none
follow x t pending (some (put type content)) = some (put_and_notify x t pending type content)
follow x t pending (some queue) =
    some (record { rc = 0; pending = t ∷ pending; effects = data_requested ∷ [] })
follow x t pending (some (failed rc)) = some (fail rc pending)

abbrev pub convert_found :
    XServer → DataTarget → Option Bytes → List DataTarget → Lookup → Option Converted
convert_found x t cached pending (refused rc) = some (fail rc pending)
convert_found x t cached pending (found before s behind) =
    let rc = x.find_window t.client t.requestor in
    if rc == 0 then follow x t pending (reply_of x s t.target cached) else some (fail rc pending)

-- lorieConvertSelection
unfoldable pub convert_selection :
    XServer → List Selection → DataTarget → Option Bytes → List DataTarget → Option Converted
unfolding utf8_to_latin1
convert_selection x selections t cached pending =
    convert_found x t cached pending (x.find_selection selections t.client t.selection)

-- The event without a property that tells the client of an error.
abbrev pub refusal : DataTarget → Effect
refusal t = notify (record t { property = 0 })

-- What follows a call of lorieConvertSelection, in both callers.
abbrev pub with_refusal : DataTarget → Option Converted → Option (List DataTarget × List Effect)
with_refusal t none = none
with_refusal t (some r) =
    some (r.pending, if r.rc == 0 then r.effects else r.effects ++ refusal t ∷ [])

unfoldable pub answer :
    XServer
    → List Selection
    → DataTarget
    → Option Bytes
    → List DataTarget
    → Option (List DataTarget × List Effect)
unfolding convert_selection
answer x selections t cached pending =
    with_refusal t (convert_selection x selections t cached pending)

-- The code returned, the state and the effects.
pub record Handled : Type 0 where
  pub rc : ℕ
  pub clipboard : Clipboard
  pub effects : List Effect

abbrev pub with_answer : Clipboard → Option (List DataTarget × List Effect) → Option Handled
with_answer c none = none
with_answer c (some (pending, effects)) =
    some (record { rc = 0; clipboard = record c { pending = pending }; effects = effects })

-- `original` is what the X server's own handler returns.
abbrev pub pass_on : ℕ → Clipboard → Option Handled
pass_on original c = some (record { rc = original; clipboard = c; effects = passed_on ∷ [] })

abbrev pub is_client : Option ℕ → ℕ → Bool
is_client none client = false
is_client (some c) client = c == client

abbrev pub is_own : XServer → Selection → Bool
is_own x s = is_client s.client x.server_client && s.window == x.root

unfoldable pub convert_own : XServer → ℕ → Clipboard → DataTarget → Lookup → Option Handled
unfolding answer
convert_own x original c t (refused rc) = pass_on original c
convert_own x original c t (found before s behind) =
    if is_own x s
    then with_answer c (answer x c.selections t c.cached c.pending)
    else pass_on original c

abbrev pub are_valid : XServer → DataTarget → Bool
are_valid x t =
    x.is_valid_atom t.selection
    && (x.is_valid_atom t.target && (t.property == 0 || x.is_valid_atom t.property))

abbrev pub return_error : ℕ → Clipboard → Option Handled
return_error rc c = some (record { rc = rc; clipboard = c; effects = [] })

-- lorieProcConvertSelection
unfoldable pub proc_convert_selection : XServer → ℕ → Clipboard → DataTarget → Option Handled
unfolding convert_own
proc_convert_selection x original c t =
    let rc = x.find_window t.client t.requestor in
    if rc == 0
    then if are_valid x t
      then convert_own x original c t (x.find_selection c.selections t.client t.selection)
      else return_error bad_atom c
    else return_error rc c

-- `lorieDataTargetHead = next`, of the head as it is after the conversion.
abbrev pub unlink : List DataTarget → List DataTarget
unlink [] = []
unlink (t ∷ pending) = pending

abbrev pub then_effects :
    List Effect → Option (List DataTarget × List Effect) → Option (List DataTarget × List Effect)
then_effects es none = none
then_effects es (some (pending, more)) = some (pending, es ++ more)

-- A round's answer, and the rounds after it.
abbrev pub and_rounds :
    Option (List DataTarget × List Effect)
    → (List DataTarget → Option (List DataTarget × List Effect))
    → Option (List DataTarget × List Effect)
and_rounds none rest = none
and_rounds (some (left, effects)) rest = then_effects effects (rest (unlink left))

-- The loop of lorieHandleClipboardData, at most `n` rounds: what is left of the queue, and the effects.
unfoldable pub answer_rounds :
    XServer
    → List Selection
    → Option Bytes
    → ℕ
    → List DataTarget
    → Option (List DataTarget × List Effect)
unfolding answer
answer_rounds x selections cached zero pending = some (pending, [])
answer_rounds x selections cached (suc n) [] = some ([], [])
answer_rounds x selections cached (suc n) (t ∷ pending) =
    and_rounds (answer x selections t cached (t ∷ pending)) (answer_rounds x selections cached n)

abbrev pub with_data :
    Clipboard
    → Option Bytes
    → Option (List DataTarget × List Effect)
    → Option (Clipboard × List Effect)
with_data c data' none = none
with_data c data' (some (pending, effects)) =
    some (record c { cached = data'; pending = pending }, effects)

-- lorieHandleClipboardData, with the number of the queued requests as fuel.
unfoldable pub handle_data : XServer → Clipboard → Option Bytes → Option (Clipboard × List Effect)
unfolding answer_rounds
handle_data x c data' =
    with_data c data' (answer_rounds x c.selections data' (length c.pending) c.pending)
