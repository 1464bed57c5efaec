-- ===== src/Clipboard/Answers.antt =====
-- What becomes of a request for the clipboard of the activity, of app/src/main/cpp/lorie/clipboard.c:
-- it is answered once, or queued and answered once when the data comes.
use mathlib.Core.Path.{subst}
use termux_x11_extra.Base.{
  ℕ, ◌≡◌, ◌≢◌, ◌⊎◌, inl, inr, refl, sym, ◌||◌, List, [], ◌∷◌, Option, none, some, ◌==◌, arith,
  if-elim, ==_iff,
}
use termux_x11_extra.Text.{Bytes, utf8_to_latin1}
use termux_x11_extra.Clipboard.{
  Content, Selection, Lookup, refused, found, DataTarget, Effect, notify, property_put,
  data_requested, data_sent, passed_on, selection_request, selection_clear, XServer, Clipboard,
}
use termux_x11_extra.Clipboard.Convert.{
  Reply, put, queue, failed, is_text, reply_later, put_latin1, reply_text, reply_of, Converted,
  fail, put_and_notify, real_property, follow, convert_found, convert_selection, with_refusal,
  answer, Handled, with_answer, is_own, convert_own, are_valid, proc_convert_selection,
}

-- There is a result, and it is so.
abbrev pub Yields {ℓ} : {A : Type ℓ} → (A → Type 0) → Option A → Type 0
Yields P none = ⊥
Yields P (some a) = P a

-- The data is absent, or the conversion to Latin-1 does not read behind it.
abbrev pub IsReadable : Option Bytes → Type 0
IsReadable none = Unit
IsReadable (some data') = (latin1 : Bytes) × (utf8_to_latin1 data' ≡ some latin1)

-- The requests that the clients are told of.
abbrev pub notices : List Effect → List DataTarget
notices [] = []
notices (notify t ∷ es) = t ∷ notices es
notices (selection_request c w s t ∷ es) = notices es
notices (selection_clear c w s ∷ es) = notices es
notices (property_put w p t c ∷ es) = notices es
notices (data_sent s ∷ es) = notices es
notices (data_requested ∷ es) = notices es
notices (passed_on ∷ es) = notices es

-- An event that answers the request: with its property, or with None.
abbrev pub IsReply : DataTarget → DataTarget → Type 0
IsReply t u = (u ≡ t) ⊎ (u ≡ record t { property = 0 })

-- The events answer the requests one by one, in their order.
abbrev pub Replies : List DataTarget → List DataTarget → Type 0
Replies [] [] = Unit
Replies [] (u ∷ us) = ⊥
Replies (t ∷ ts) [] = ⊥
Replies (t ∷ ts) (u ∷ us) = IsReply t u × Replies ts us

-- The request is answered and the queue as before; or there is no data, and it is queued and the
-- data asked for.
abbrev pub IsHandled :
    Option Bytes → DataTarget → List DataTarget → List DataTarget × List Effect → Type 0
IsHandled cached t pending (left, es) =
    ((left ≡ pending) × Replies (t ∷ []) (notices es))
    ⊎ ((cached ≡ none) × (left ≡ t ∷ pending) × (es ≡ data_requested ∷ []))

-- dixLookupSelection refuses with an error.
abbrev pub IsRefusing : XServer → Type 0
IsRefusing x =
    (selections : List Selection) (client atom rc : ℕ)
    → x.find_selection selections client atom ≡ refused rc
    → rc ≢ 0

-- A request is queued for want of data only, and an error is not Success.
abbrev IsFit : Option Bytes → Reply → Type 0
IsFit cached queue = cached ≡ none
IsFit cached (put type content) = Unit {0}
IsFit cached (failed rc) = rc ≢ 0

reply_later-IsFit : (x : XServer) (target : ℕ) → IsFit none (reply_later x target)
reply_later-IsFit x target =
    if-elim (IsFit none) (is_text x.atoms target) _ _
      (λ _. if-elim (IsFit none) x.allocated _ _ (λ _. refl) (λ _ e. omega (arith, e)))
      (λ _ e. omega (arith, e))

reply_text-IsFit :
    (x : XServer) (target : ℕ) (cached : Option Bytes)
    → IsReadable cached
    → Yields (IsFit cached) (reply_text x target cached)
reply_text-IsFit x target none readable = reply_later-IsFit x target
reply_text-IsFit x target (some data') (latin1, is) =
    if-elim (Yields (IsFit (some data'))) (target == x.atoms.string || target == x.atoms.text) _ _
      (λ _.
        subst (λ o. Yields (IsFit (some data')) (put_latin1 x o)) (sym is)
          (if-elim (IsFit (some data')) x.copied _ _ (λ _. tt) (λ _ e. omega (arith, e))))
      (λ _.
        if-elim (IsFit (some data')) (target == x.atoms.utf8_string) _ _ (λ _. tt)
          (λ _ e. omega (arith, e)))

reply_of-IsFit :
    (x : XServer) (s : Selection) (target : ℕ) (cached : Option Bytes)
    → IsReadable cached
    → Yields (IsFit cached) (reply_of x s target cached)
reply_of-IsFit x s target cached readable =
    if-elim (Yields (IsFit cached)) (target == x.atoms.targets) _ _ (λ _. tt)
      (λ _.
        if-elim (Yields (IsFit cached)) (target == x.atoms.timestamp) _ _ (λ _. tt)
          (λ _. reply_text-IsFit x target cached readable))

module _ (cached : Option Bytes) (t : DataTarget) (pending : List DataTarget) where
  abbrev Handles : Option Converted → Type 0
  Handles o = Yields (IsHandled cached t pending) (with_refusal t o)

  fail-Handles : (rc : ℕ) → rc ≢ 0 → Handles (some (fail rc pending))
  fail-Handles rc nonzero =
      if-elim (λ es. IsHandled cached t pending (pending, es)) (rc == 0) _ _
        (λ is. absurd (nonzero ((==_iff rc 0).0 is))) (λ _. inl (refl, (inr refl, tt)))

  put-Handles :
      (x : XServer) (type : ℕ) (content : Content)
      → Handles (some (put_and_notify x t pending type content))
  put-Handles x type content =
      let rc = x.change_property t.requestor (real_property t) type content in
      let done : Converted = record {
        rc = 0;
        pending = pending;
        effects = property_put t.requestor (real_property t) type content ∷ notify t ∷ [];
      } in
      if-elim (λ r. Handles (some r)) (rc == 0) done (fail rc pending)
        (λ _. inl (refl, (inl refl, tt))) (λ bad. fail-Handles rc (λ e. ground (arith, e, bad)))

  follow-Handles :
      (x : XServer) (o : Option Reply) → Yields (IsFit cached) o → Handles (follow x t pending o)
  follow-Handles x none fit = absurd fit
  follow-Handles x (some (put type content)) fit = put-Handles x type content
  follow-Handles x (some queue) fit = inr (fit, refl, refl)
  follow-Handles x (some (failed rc)) fit = fail-Handles rc fit

  convert_found-Handles :
      (x : XServer) (l : Lookup)
      → IsReadable cached
      → ((rc : ℕ) → l ≡ refused rc → rc ≢ 0)
      → Handles (convert_found x t cached pending l)
  convert_found-Handles x (refused rc) readable refuses = fail-Handles rc (refuses rc refl)
  convert_found-Handles x (found before s behind) readable refuses =
      let rc = x.find_window t.client t.requestor in
      if-elim Handles (rc == 0) _ _
        (λ _.
          follow-Handles x (reply_of x s t.target cached)
            (reply_of-IsFit x s t.target cached readable))
        (λ bad. fail-Handles rc (λ e. ground (arith, e, bad)))

pub answer-IsHandled :
    (x : XServer) (selections : List Selection) (t : DataTarget) (cached : Option Bytes)
    (pending : List DataTarget)
    → IsRefusing x
    → IsReadable cached
    → Yields (IsHandled cached t pending) (answer x selections t cached pending)
unfolding answer convert_selection
answer-IsHandled x selections t cached pending refusing readable =
    convert_found-Handles cached t pending x (x.find_selection selections t.client t.selection)
      readable (refusing selections t.client t.selection)

-- A request as a whole: it goes to the X server, or an error is returned, or it is handled.
abbrev pub IsServed : Clipboard → DataTarget → Handled → Type 0
IsServed c t h =
    ((h.clipboard ≡ c) × ((h.effects ≡ passed_on ∷ []) ⊎ ((h.effects ≡ []) × (h.rc ≢ 0))))
    ⊎ ((h.rc ≡ 0) × IsHandled c.cached t c.pending (h.clipboard.pending, h.effects))

with_answer-IsServed :
    (c : Clipboard) (t : DataTarget) (o : Option (List DataTarget × List Effect))
    → Yields (IsHandled c.cached t c.pending) o
    → Yields (IsServed c t) (with_answer c o)
with_answer-IsServed c t none handled = handled
with_answer-IsServed c t (some (pending, es)) handled = inr (refl, handled)

convert_own-IsServed :
    (x : XServer) (original : ℕ) (c : Clipboard) (t : DataTarget) (l : Lookup)
    → IsRefusing x
    → IsReadable c.cached
    → Yields (IsServed c t) (convert_own x original c t l)
unfolding convert_own
convert_own-IsServed x original c t (refused rc) refusing readable = inl (refl, inl refl)
convert_own-IsServed x original c t (found before s behind) refusing readable =
    if-elim (Yields (IsServed c t)) (is_own x s) _ _
      (λ _.
        with_answer-IsServed c t (answer x c.selections t c.cached c.pending)
          (answer-IsHandled x c.selections t c.cached c.pending refusing readable))
      (λ _. inl (refl, inl refl))

-- A ConvertSelection request, on cached data that the conversion to Latin-1 can read and an X server
-- that refuses with errors, has one of four outcomes: it goes on to the X server's own handler; an
-- error is returned and nothing is done; one event answers it, with its property or None, and the
-- queue stays as it was; or, where no data is cached, it is put in front of the queue and the data is
-- asked for.
pub proc_convert_selection-IsServed :
    (x : XServer) (original : ℕ) (c : Clipboard) (t : DataTarget)
    → IsRefusing x
    → IsReadable c.cached
    → Yields (IsServed c t) (proc_convert_selection x original c t)
unfolding proc_convert_selection
proc_convert_selection-IsServed x original c t refusing readable =
    let rc = x.find_window t.client t.requestor in
    if-elim (Yields (IsServed c t)) (rc == 0) _ _
      (λ _.
        if-elim (Yields (IsServed c t)) (are_valid x t) _ _
          (λ _.
            convert_own-IsServed x original c t (x.find_selection c.selections t.client t.selection)
              refusing readable)
          (λ _. inl (refl, inr (refl, λ e. omega (arith, e)))))
      (λ bad. inl (refl, inr (refl, λ e. ground (arith, e, bad))))
