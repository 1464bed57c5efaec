-- ===== src/Clipboard/Fresh.antt =====
-- lorieHandleClipboardAnnounce of app/src/main/cpp/lorie/clipboard.c: data of before the announcement is
-- not given to a client after it.
use mathlib.Core.Path.{subst}
use termux_x11_extra.Base.{sym, ℕ, ◌≡◌, refl, List, [], ◌∷◌, Option, none, some, ◌==◌, All, if-elim}
use termux_x11_extra.Clipboard.{
  numbers, bytes, Selection, Lookup, refused, found, DataTarget, Effect, notify, property_put,
  data_requested, data_sent, passed_on, selection_request, selection_clear, XServer, Clipboard,
}
use termux_x11_extra.Clipboard.Convert.{
  Reply, put, queue, failed, is_text, reply_of, Converted, fail, put_and_notify, real_property,
  follow, convert_found, convert_selection, with_refusal, answer, Handled, with_answer, is_own,
  convert_own, are_valid, proc_convert_selection,
}
use termux_x11_extra.Clipboard.Answers.{
  Yields, IsRefusing, IsServed, proc_convert_selection-IsServed,
}
use termux_x11_extra.Clipboard.Own.{handle_announce}

-- The effect gives no bytes to a client.
abbrev pub GivesNone : Effect → Type 0
GivesNone (property_put w p t (bytes s)) = ⊥
GivesNone (property_put w p t (numbers ns)) = Unit
GivesNone (notify t) = Unit
GivesNone (selection_request c w s t) = Unit
GivesNone (selection_clear c w s) = Unit
GivesNone (data_sent s) = Unit
GivesNone data_requested = Unit
GivesNone passed_on = Unit

abbrev IsPlain : Option Reply → Type 0
IsPlain none = Unit {0}
IsPlain (some (put type (bytes s))) = ⊥
IsPlain (some (put type (numbers ns))) = Unit
IsPlain (some queue) = Unit
IsPlain (some (failed rc)) = Unit

reply_of-IsPlain : (x : XServer) (s : Selection) (target : ℕ) → IsPlain (reply_of x s target none)
reply_of-IsPlain x s target =
    if-elim IsPlain (target == x.atoms.targets) _ _ (λ _. tt)
      (λ _.
        if-elim IsPlain (target == x.atoms.timestamp) _ _ (λ _. tt)
          (λ _.
            if-elim (λ r. IsPlain (some r)) (is_text x.atoms target) _ _
              (λ _. if-elim (λ r. IsPlain (some r)) x.allocated _ _ (λ _. tt) (λ _. tt)) (λ _. tt)))

-- The result, where there is one, gives none.
abbrev GivesNothing : Option (List DataTarget × List Effect) → Type 0
GivesNothing none = Unit {0}
GivesNothing (some (pending, es)) = All GivesNone es

module _ (t : DataTarget) where
  fail-GivesNothing :
      (rc : ℕ) (pending : List DataTarget) → GivesNothing (with_refusal t (some (fail rc pending)))
  fail-GivesNothing rc pending =
      if-elim (λ es. All GivesNone es) (rc == 0) _ _ (λ _. tt) (λ _. (tt, tt))

  put-GivesNothing :
      (x : XServer) (pending : List DataTarget) (type : ℕ) (ns : List ℕ)
      → GivesNothing (with_refusal t (some (put_and_notify x t pending type (numbers ns))))
  put-GivesNothing x pending type ns =
      let rc = x.change_property t.requestor (real_property t) type (numbers ns) in
      let done : Converted = record {
        rc = 0;
        pending = pending;
        effects = property_put t.requestor (real_property t) type (numbers ns) ∷ notify t ∷ [];
      } in
      if-elim (λ r. GivesNothing (with_refusal t (some r))) (rc == 0) done (fail rc pending)
        (λ _. (tt, (tt, tt))) (λ _. fail-GivesNothing rc pending)

  follow-GivesNothing :
      (x : XServer) (pending : List DataTarget) (o : Option Reply)
      → IsPlain o
      → GivesNothing (with_refusal t (follow x t pending o))
  follow-GivesNothing x pending none plain = tt
  follow-GivesNothing x pending (some (put type (bytes s))) plain = absurd plain
  follow-GivesNothing x pending (some (put type (numbers ns))) plain =
      put-GivesNothing x pending type ns
  follow-GivesNothing x pending (some queue) plain = (tt, tt)
  follow-GivesNothing x pending (some (failed rc)) plain = fail-GivesNothing rc pending

  convert_found-GivesNothing :
      (x : XServer) (pending : List DataTarget) (l : Lookup)
      → GivesNothing (with_refusal t (convert_found x t none pending l))
  convert_found-GivesNothing x pending (refused rc) = fail-GivesNothing rc pending
  convert_found-GivesNothing x pending (found before s behind) =
      let rc = x.find_window t.client t.requestor in
      if-elim (λ o. GivesNothing (with_refusal t o)) (rc == 0) _ _
        (λ _.
          follow-GivesNothing x pending (reply_of x s t.target none)
            (reply_of-IsPlain x s t.target))
        (λ _. fail-GivesNothing rc pending)

-- A result is there and gives none, or there is none.
abbrev pub HandledPlainly : Option Handled → Type 0
HandledPlainly none = Unit {0}
HandledPlainly (some h) = All GivesNone h.effects

with_answer-Plainly :
    (c : Clipboard) (o : Option (List DataTarget × List Effect))
    → GivesNothing o
    → HandledPlainly (with_answer c o)
with_answer-Plainly c none plain = tt
with_answer-Plainly c (some (pending, es)) plain = plain

answer-GivesNothing :
    (x : XServer) (selections : List Selection) (t : DataTarget) (pending : List DataTarget)
    → GivesNothing (answer x selections t none pending)
unfolding answer convert_selection
answer-GivesNothing x selections t pending =
    convert_found-GivesNothing t x pending (x.find_selection selections t.client t.selection)

convert_own-Plainly :
    (x : XServer) (original : ℕ) (c : Clipboard) (t : DataTarget) (l : Lookup)
    → c.cached ≡ none
    → HandledPlainly (convert_own x original c t l)
unfolding convert_own
convert_own-Plainly x original c t (refused rc) empty = (tt, tt)
convert_own-Plainly x original c t (found before s behind) empty =
    if-elim HandledPlainly (is_own x s) _ _
      (λ _. with_answer-Plainly c (answer x c.selections t c.cached c.pending) (
        subst (λ k. GivesNothing (answer x c.selections t k c.pending)) (sym empty)
          (answer-GivesNothing x c.selections t c.pending)))
      (λ _. (tt, tt))

proc_convert_selection-Plainly :
    (x : XServer) (original : ℕ) (c : Clipboard) (t : DataTarget)
    → c.cached ≡ none
    → HandledPlainly (proc_convert_selection x original c t)
unfolding proc_convert_selection
proc_convert_selection-Plainly x original c t empty =
    if-elim HandledPlainly (x.find_window t.client t.requestor == 0) _ _
      (λ _.
        if-elim HandledPlainly (are_valid x t) _ _
          (λ _.
            convert_own-Plainly x original c t (x.find_selection c.selections t.client t.selection)
              empty)
          (λ _. tt))
      (λ _. tt)

both :
    (P : Handled → Type 0) (o : Option Handled)
    → Yields P o
    → HandledPlainly o
    → Yields (λ h. P h × All GivesNone h.effects) o
both P none is plain = absurd is
both P (some h) is plain = (is, plain)

-- After the activity has announced new data, a ConvertSelection request is served without a read
-- outside memory, and gives no bytes to the client: what was cached before is gone. This for an X
-- server that refuses with errors.
pub proc_convert_selection-handle_announce :
    (x : XServer) (original : ℕ) (c : Clipboard) (t : DataTarget)
    → IsRefusing x
    → let c' = (handle_announce x c).0 in
      Yields
        (λ h. IsServed c' t h × All GivesNone h.effects)
        (proc_convert_selection x original c' t)
unfolding handle_announce
proc_convert_selection-handle_announce x original c t refusing =
    let c' = (handle_announce x c).0 in
    both (IsServed c' t) (proc_convert_selection x original c' t)
      (proc_convert_selection-IsServed x original c' t refusing tt)
      (proc_convert_selection-Plainly x original c' t refl)
