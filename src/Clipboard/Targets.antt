-- ===== src/Clipboard/Targets.antt =====
-- What lorieConvertSelection of app/src/main/cpp/lorie/clipboard.c answers to a request for each target, and
-- why it answers with None.
use mathlib.Core.Path.{subst}
use termux_x11_extra.Base.{
  ℕ, ◌≡◌, ◌≢◌, ◌⊎◌, inl, inr, refl, sym, Bool, true, false, ◌||◌, List, [], ◌∷◌, Option, none, some,
  ◌==◌, arith, if-elim, ==_iff,
}
use termux_x11_extra.Text.{Bytes, utf8_to_latin1, c_string}
use termux_x11_extra.Clipboard.{
  Atoms, Content, numbers, bytes, Selection, DataTarget, Effect, notify, property_put,
  data_requested, XServer, xa_atom, xa_integer, xa_string,
}
use termux_x11_extra.Clipboard.Convert.{
  Reply, put, queue, failed, is_text, reply_later, put_latin1, reply_data, reply_text, reply_of,
  Converted, fail, put_and_notify, real_property, refusal, follow, with_refusal,
}
use termux_x11_extra.Clipboard.Answers.{Yields, IsReadable}

-- The target is STRING, TEXT or UTF8_STRING.
abbrev pub IsTextTarget : Atoms → ℕ → Type 0
IsTextTarget a target = (target ≡ a.string) ⊎ ((target ≡ a.text) ⊎ (target ≡ a.utf8_string))

-- The target is none that is offered.
abbrev pub IsUnknown : Atoms → ℕ → Type 0
IsUnknown a target =
    (target ≢ a.targets)
    × (target ≢ a.timestamp)
    × (target ≢ a.string)
    × (target ≢ a.text)
    × (target ≢ a.utf8_string)

-- What a property of the target has to hold: the list of the targets, the time of the selection, or the
-- text in Latin-1 or as it is.
abbrev pub IsContent : XServer → Selection → Option Bytes → ℕ → ℕ → Content → Type 0
IsContent x s cached target type content =
    let a = x.atoms in
    ((target ≡ a.targets)
      × (type ≡ xa_atom)
      × (content ≡ numbers (a.targets ∷ a.timestamp ∷ a.string ∷ a.text ∷ a.utf8_string ∷ [])))
    ⊎ (((target ≡ a.timestamp) × (type ≡ xa_integer) × (content ≡ numbers (s.last_changed ∷ [])))
        ⊎ ((((target ≡ a.string) ⊎ (target ≡ a.text))
              × (type ≡ xa_string)
              × ((data' : Bytes) × (latin1 : Bytes) × (cached ≡ some data')
                  × (utf8_to_latin1 data' ≡ some latin1)
                  × (content ≡ bytes latin1)))
            ⊎ ((target ≡ a.utf8_string)
                × (type ≡ a.utf8_string)
                × ((data' : Bytes) × (cached ≡ some data') × (content ≡ bytes (c_string data'))))))

pub eq_of : (m n : ℕ) → (m == n) ≡ true → m ≡ n
eq_of m n h = (==_iff m n).0 h

pub either_of : (p q : Bool) → (p || q) ≡ true → (p ≡ true) ⊎ (q ≡ true)
either_of true q h = inl refl
either_of false q h = inr h

module _ (x : XServer) (s : Selection) (t : DataTarget) (cached : Option Bytes) where
  -- The memory for the request or for the text is not there, or the target is not offered.
  abbrev pub IsReason : Type 0
  IsReason = IsUnknown x.atoms t.target ⊎ ((x.allocated ≡ false) ⊎ (x.copied ≡ false))

  abbrev pub IsRight : Option Reply → Type 0
  IsRight none = ⊥
  IsRight (some (put type content)) = IsContent x s cached t.target type content
  IsRight (some queue) = (cached ≡ none) × IsTextTarget x.atoms t.target × (x.allocated ≡ true)
  IsRight (some (failed rc)) = (rc ≢ 0) × IsReason

  module _ (no_targets : t.target ≢ x.atoms.targets) (no_time : t.target ≢ x.atoms.timestamp) where
    unknown :
        (t.target == x.atoms.string) ≡ false
        → (t.target == x.atoms.text) ≡ false
        → (t.target == x.atoms.utf8_string) ≡ false
        → IsUnknown x.atoms t.target
    unknown a b c = (
      no_targets,
      no_time,
      λ e. ground (arith, a, e),
      λ e. ground (arith, b, e),
      λ e. ground (arith, c, e),
    )

    text_target : is_text x.atoms t.target ≡ true → IsTextTarget x.atoms t.target
    text_target h = elim (either_of (t.target == x.atoms.string) _ h) [
      | inl e ↦ inl (eq_of t.target x.atoms.string e)
      | inr more ↦ elim (either_of (t.target == x.atoms.text) _ more) [
        | inl e ↦ inr (inl (eq_of t.target x.atoms.text e))
        | inr e ↦ inr (inr (eq_of t.target x.atoms.utf8_string e))
      ]
    ]

    reply_later-IsRight : cached ≡ none → IsRight (some (reply_later x t.target))
    reply_later-IsRight absent =
        if-elim (λ r. IsRight (some r)) (is_text x.atoms t.target) _ _
          (λ is.
            if-elim (λ r. IsRight (some r)) x.allocated _ _ (λ a. (absent, text_target is, a))
              (λ a. ((λ e. omega (arith, e)), inr (inl a))))
          (λ is. (
            (λ e. omega (arith, e)),
            inl (unknown (ground (arith, is)) (ground (arith, is)) (ground (arith, is))),
          ))

    reply_data-IsRight :
        (data' : Bytes)
        → cached ≡ some data'
        → IsReadable (some data')
        → IsRight (reply_data x t.target data')
    reply_data-IsRight data' there (latin1, is) =
        if-elim IsRight (t.target == x.atoms.string || t.target == x.atoms.text) _ _
          (λ e.
            subst (λ o. IsRight (put_latin1 x o)) (sym is)
              (if-elim (λ r. IsRight (some r)) x.copied _ _
                (λ _. inr (inr (inl (either e, refl, (data', latin1, there, is, refl)))))
                (λ c. ((λ e. omega (arith, e)), inr (inr c)))))
          (λ n.
            if-elim (λ r. IsRight (some r)) (t.target == x.atoms.utf8_string) _ _
              (λ e.
                inr (inr (inr (eq_of t.target x.atoms.utf8_string e, refl, (data', there, refl)))))
              (λ u.
                ((λ e. omega (arith, e)), inl (unknown (ground (arith, n)) (ground (arith, n)) u))))
      where
        either :
            (t.target == x.atoms.string || t.target == x.atoms.text) ≡ true
            → (t.target ≡ x.atoms.string) ⊎ (t.target ≡ x.atoms.text)
        either h = elim (either_of (t.target == x.atoms.string) _ h) [
          | inl e ↦ inl (eq_of t.target x.atoms.string e)
          | inr e ↦ inr (eq_of t.target x.atoms.text e)
        ]

    reply_text-IsRight :
        (o : Option Bytes) → cached ≡ o → IsReadable o → IsRight (reply_text x t.target o)
    reply_text-IsRight none is readable = reply_later-IsRight is
    reply_text-IsRight (some data') is readable = reply_data-IsRight data' is readable

  apart_of : (m n : ℕ) → (m == n) ≡ false → m ≢ n
  apart_of m n h e = ground (arith, h, e)

  pub reply_of-IsRight : IsReadable cached → IsRight (reply_of x s t.target cached)
  reply_of-IsRight readable =
      if-elim IsRight (t.target == x.atoms.targets) _ _
        (λ e. inl (eq_of t.target x.atoms.targets e, refl, refl))
        (λ no_targets.
          if-elim IsRight (t.target == x.atoms.timestamp) _ _
            (λ e. inr (inl (eq_of t.target x.atoms.timestamp e, refl, refl)))
            (λ no_time.
              reply_text-IsRight (apart_of t.target x.atoms.targets no_targets)
                (apart_of t.target x.atoms.timestamp no_time) cached refl readable))

  -- What a request that is the server's to answer comes to: the property is written with what the target
  -- asks for and the client told of it; or the client is told None, for a reason; or there is no data
  -- yet, and the request for a text is queued and the data asked for.
  abbrev pub IsAnswer : List DataTarget → List DataTarget × List Effect → Type 0
  IsAnswer pending (left, es) =
      ((left ≡ pending)
        × ((type : ℕ) × (content : Content) × IsContent x s cached t.target type content
            × (x.change_property t.requestor (real_property t) type content ≡ 0)
            × (es ≡ property_put t.requestor (real_property t) type content ∷ notify t ∷ [])))
      ⊎ (((left ≡ pending)
            × (es ≡ refusal t ∷ [])
            × (IsReason
                ⊎ ((type : ℕ) × (content : Content) × IsContent x s cached t.target type content
                    × (x.change_property t.requestor (real_property t) type content ≢ 0))))
          ⊎ ((cached ≡ none)
              × IsTextTarget x.atoms t.target
              × (x.allocated ≡ true)
              × (left ≡ t ∷ pending)
              × (es ≡ data_requested ∷ [])))

  module _ (pending : List DataTarget) where
    fail-IsAnswer :
        (rc : ℕ)
        → rc ≢ 0
        → (IsReason
            ⊎ ((type : ℕ) × (content : Content) × IsContent x s cached t.target type content
                × (x.change_property t.requestor (real_property t) type content ≢ 0)))
        → Yields (IsAnswer pending) (with_refusal t (some (fail rc pending)))
    fail-IsAnswer rc nonzero reason =
        if-elim (λ es. IsAnswer pending (pending, es)) (rc == 0) _ _
          (λ is. absurd (nonzero (eq_of rc 0 is))) (λ _. inr (inl (refl, refl, reason)))

    put-IsAnswer :
        (type : ℕ) (content : Content)
        → IsContent x s cached t.target type content
        → Yields
            (IsAnswer pending)
            (with_refusal t (some (put_and_notify x t pending type content)))
    put-IsAnswer type content is =
        let rc = x.change_property t.requestor (real_property t) type content in
        let done : Converted = record {
          rc = 0;
          pending = pending;
          effects = property_put t.requestor (real_property t) type content ∷ notify t ∷ [];
        } in
        if-elim (λ r. Yields (IsAnswer pending) (with_refusal t (some r))) (rc == 0) done
          (fail rc pending) (λ ok. inl (refl, (type, content, is, eq_of rc 0 ok, refl)))
          (λ bad. fail-IsAnswer rc (apart_of rc 0 bad) (inr (type, content, is, apart_of rc 0 bad)))

    pub follow-IsAnswer :
        (o : Option Reply)
        → IsRight o
        → Yields (IsAnswer pending) (with_refusal t (follow x t pending o))
    follow-IsAnswer none right = absurd right
    follow-IsAnswer (some (put type content)) right = put-IsAnswer type content right
    follow-IsAnswer (some queue) (absent, text, made) = inr (inr (absent, text, made, refl, refl))
    follow-IsAnswer (some (failed rc)) (nonzero, reason) = fail-IsAnswer rc nonzero (inl reason)
