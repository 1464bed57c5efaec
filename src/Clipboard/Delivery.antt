-- ===== src/Clipboard/Delivery.antt =====
-- The loop of lorieHandleClipboardData, of app/src/main/cpp/lorie/clipboard.c: the data answers the
-- queued requests.
use mathlib.Core.Path.{subst}
use termux_x11_extra.Base.{
  ◌≡◌, inl, inr, refl, ap, sym, List, [], ◌∷◌, ◌++◌, Option, none, some, length,
}
use termux_x11_extra.Text.{Bytes, utf8_to_latin1}
use termux_x11_extra.Clipboard.{
  Selection, DataTarget, Effect, notify, property_put, data_requested, data_sent, passed_on,
  selection_request, selection_clear, XServer, Clipboard,
}
use termux_x11_extra.Clipboard.Convert.{
  answer, unlink, then_effects, and_rounds, answer_rounds, with_data, handle_data,
}
use termux_x11_extra.Clipboard.Answers.{
  Yields, IsReadable, notices, Replies, IsRefusing, IsHandled, answer-IsHandled,
}

notices-append : (es fs : List Effect) → notices (es ++ fs) ≡ notices es ++ notices fs
notices-append [] fs = refl
notices-append (notify t ∷ es) fs = ap (λ ts. t ∷ ts) (notices-append es fs)
notices-append (selection_request c w s t ∷ es) fs = notices-append es fs
notices-append (selection_clear c w s ∷ es) fs = notices-append es fs
notices-append (property_put w p t c ∷ es) fs = notices-append es fs
notices-append (data_sent s ∷ es) fs = notices-append es fs
notices-append (data_requested ∷ es) fs = notices-append es fs
notices-append (passed_on ∷ es) fs = notices-append es fs

Replies-cons :
    (t : DataTarget) (ts us vs : List DataTarget)
    → Replies (t ∷ []) us
    → Replies ts vs
    → Replies (t ∷ ts) (us ++ vs)
Replies-cons t ts [] vs one more = absurd one
Replies-cons t ts (u ∷ []) vs one more = (one.0, more)
Replies-cons t ts (u ∷ u' ∷ us) vs one more = absurd one.1

abbrev AnswersAll : List DataTarget → List DataTarget × List Effect → Type 0
AnswersAll pending (left, es) = (left ≡ []) × Replies pending (notices es)

then_effects-AnswersAll :
    (t : DataTarget) (pending : List DataTarget) (es : List Effect)
    (o : Option (List DataTarget × List Effect))
    → Replies (t ∷ []) (notices es)
    → Yields (AnswersAll pending) o
    → Yields (AnswersAll (t ∷ pending)) (then_effects es o)
then_effects-AnswersAll t pending es none one more = more
then_effects-AnswersAll t pending es (some (left, fs)) one (empty, all) = (
  empty,
  subst (Replies (t ∷ pending)) (sym (notices-append es fs))
      (Replies-cons t pending (notices es) (notices fs) one all),
)

and_rounds-AnswersAll :
    (data' : Bytes) (t : DataTarget) (pending : List DataTarget)
    (o : Option (List DataTarget × List Effect))
    (rest : List DataTarget → Option (List DataTarget × List Effect))
    → Yields (IsHandled (some data') t (t ∷ pending)) o
    → Yields (AnswersAll pending) (rest pending)
    → Yields (AnswersAll (t ∷ pending)) (and_rounds o rest)
and_rounds-AnswersAll data' t pending none rest handled more = absurd handled
and_rounds-AnswersAll data' t pending (some (left, es)) rest (inl (same, one)) more =
    then_effects-AnswersAll t pending es (rest (unlink left)) one
      (subst (λ p. Yields (AnswersAll pending) (rest (unlink p))) (sym same) more)
and_rounds-AnswersAll data' t pending (some (left, es)) rest (inr (no_data, queued, requested))
      more =
    cc

answer_rounds-AnswersAll :
    (x : XServer) (selections : List Selection) (data' : Bytes) (pending : List DataTarget)
    → IsRefusing x
    → IsReadable (some data')
    → Yields (AnswersAll pending) (answer_rounds x selections (some data') (length pending) pending)
unfolding answer_rounds
answer_rounds-AnswersAll x selections data' [] refusing readable = (refl, tt)
answer_rounds-AnswersAll x selections data' (t ∷ pending) refusing readable =
    and_rounds-AnswersAll data' t pending (answer x selections t (some data') (t ∷ pending))
      (answer_rounds x selections (some data') (length pending))
      (answer-IsHandled x selections t (some data') (t ∷ pending) refusing readable)
      (answer_rounds-AnswersAll x selections data' pending refusing readable)

-- The clipboard keeps the data, its queue is empty, and the events answer what was queued.
abbrev pub IsDelivered : Clipboard → Bytes → Clipboard × List Effect → Type 0
IsDelivered c data' (c', es) =
    (c'.cached ≡ some data') × (c'.pending ≡ []) × Replies c.pending (notices es)

with_data-IsDelivered :
    (c : Clipboard) (data' : Bytes) (o : Option (List DataTarget × List Effect))
    → Yields (AnswersAll c.pending) o
    → Yields (IsDelivered c data') (with_data c (some data') o)
with_data-IsDelivered c data' none all = all
with_data-IsDelivered c data' (some (left, es)) (empty, all) = (refl, empty, all)

-- Data that the conversion to Latin-1 can read is kept, the loop over the queue ends after as many
-- rounds as there are requests and empties it, and each request is answered by one event to its
-- client, in the order of the queue; this for an X server that refuses with errors.
pub handle_data-IsDelivered :
    (x : XServer) (c : Clipboard) (data' latin1 : Bytes)
    → IsRefusing x
    → utf8_to_latin1 data' ≡ some latin1
    → Yields (IsDelivered c data') (handle_data x c (some data'))
unfolding handle_data
handle_data-IsDelivered x c data' latin1 refusing readable =
    with_data-IsDelivered c data'
      (answer_rounds x c.selections (some data') (length c.pending) c.pending)
      (answer_rounds-AnswersAll x c.selections data' c.pending refusing (latin1, readable))
