-- ===== src/Keyboard/Recent.antt =====
-- The list `addedKeysyms` of app/src/main/cpp/lorie/InputXKB.c: the key used last comes first, and the
-- key that is taken for a new symbol is the one used least recently.
use mathlib.Core.List.{reverse, reverse-cons, reverse-append, reverse-reverse, append_assoc}
use termux_x11_extra.Base.{
  ℕ, ◌≡◌, ◌⊎◌, inl, inr, refl, ap, sym, ◌∙◌, Bool, true, false, not, ◌&&◌, List, [], ◌∷◌, ◌++◌,
  ◌==◌, if-true, if-false, All-append, ==_iff, All, Bool-cases,
}
use mathlib.Core.Path.{subst}
use termux_x11_extra.Keyboard.{Xkb}
use termux_x11_extra.Keyboard.Added.{
  AddedKeySym, take_used, on_key_used, is_unchanged, reuse_last, reusable_keycode,
}

-- No item of the list has the key code.
abbrev pub AllOther : ℕ → List AddedKeySym → Type 0
AllOther code = All (λ a. (a.keycode == code) ≡ false)

-- The list is newer ++ a ∷ older, `a` the first item with the key code.
pub record IsSplit (code : ℕ) (added newer : List AddedKeySym) (a : AddedKeySym)
    (older : List AddedKeySym) : Type 0 where
  pub parts : added ≡ newer ++ a ∷ older
  pub here : a.keycode ≡ code
  pub others : AllOther code newer

abbrev Split :
    ℕ → List AddedKeySym → (List AddedKeySym → AddedKeySym → List AddedKeySym → Type 0) → Type 0
Split code added P =
    (newer : List AddedKeySym) × (a : AddedKeySym) × (older : List AddedKeySym) × (IsSplit code
        added newer a older
      × P newer a older)

take_used-Split :
    (code : ℕ) (added : List AddedKeySym)
    → (AllOther code added × (take_used code added ≡ (added, [])))
      ⊎ Split code added (λ newer a older. take_used code added ≡ (newer ++ older, a ∷ []))
take_used-Split code [] = inl (tt, refl)
take_used-Split code (b ∷ added) = elim (Bool-cases (b.keycode == code)) [
  | inl hit ↦ inr (
    [],
    b,
    added,
    (
      record { parts = refl; here = (==_iff b.keycode code).0 hit; others = tt },
      if-true (b.keycode == code) _ _ hit,
    ),
  )
  | inr miss ↦ elim (take_used-Split code added) [
    | inl (all, is) ↦ inl (
      (miss, all),
      if-false (b.keycode == code) _ _ miss
          ∙ ap (λ (r : List AddedKeySym × List AddedKeySym). (b ∷ r.0, r.1)) is,
    )
    | inr (newer, a, older, (split, is)) ↦ inr (
      b ∷ newer,
      a,
      older,
      (
        record {
          parts = ap (λ l. b ∷ l) split.parts;
          here = split.here;
          others = (miss, split.others);
        },
        if-false (b.keycode == code) _ _ miss
            ∙ ap (λ (r : List AddedKeySym × List AddedKeySym). (b ∷ r.0, r.1)) is,
      ),
    )
  ]
]

-- vncOnKeyUsed leaves a list that does not have the key as it is, and moves the first item that has it
-- to the front, the others in their order.
pub on_key_used-front :
    (code : ℕ) (added : List AddedKeySym)
    → (AllOther code added × (on_key_used code added ≡ added))
      ⊎ Split code added (λ newer a older. on_key_used code added ≡ a ∷ (newer ++ older))
unfolding on_key_used
on_key_used-front code [] = inl (tt, refl)
on_key_used-front code (b ∷ added) = elim (Bool-cases (b.keycode == code)) [
  | inl hit ↦ inr (
    [],
    b,
    added,
    (
      record { parts = refl; here = (==_iff b.keycode code).0 hit; others = tt },
      if-true (b.keycode == code) _ _ hit,
    ),
  )
  | inr miss ↦ elim (take_used-Split code (b ∷ added)) [
    | inl (all, is) ↦ inl (
      all,
      if-false (b.keycode == code) _ _ miss
          ∙ ap (λ (r : List AddedKeySym × List AddedKeySym). r.1 ++ r.0) is,
    )
    | inr (newer, a, older, (split, is)) ↦ inr (
      newer,
      a,
      older,
      (
        split,
        if-false (b.keycode == code) _ _ miss
            ∙ ap (λ (r : List AddedKeySym × List AddedKeySym). r.1 ++ r.0) is,
      ),
    )
  ]
]

-- An item that can be taken: its key is as the server made it.
abbrev pub is_reusable : Xkb → AddedKeySym → Bool
is_reusable xkb a = is_unchanged xkb a && not (a.keycode == 0)

abbrev pub AllChanged : Xkb → List AddedKeySym → Type 0
AllChanged xkb = All (λ a. is_reusable xkb a ≡ false)

AllChanged-reverse :
    (xkb : Xkb) (added : List AddedKeySym) → AllChanged xkb added → AllChanged xkb (reverse added)
AllChanged-reverse xkb [] all = all
AllChanged-reverse xkb (a ∷ added) (is, all) = subst (AllChanged xkb) (sym (reverse-cons a added)) (
    All-append (λ b. is_reusable xkb b ≡ false) (reverse added) (a ∷ [])
      (AllChanged-reverse xkb added all) (is, tt))

reuse_last-first :
    (xkb : Xkb) (added : List AddedKeySym)
    → (AllChanged xkb added × (reuse_last xkb added ≡ (0, [])))
      ⊎ ((older : List AddedKeySym) × (a : AddedKeySym) × (newer : List AddedKeySym) × ((added
              ≡ older ++ a ∷ newer)
            × AllChanged xkb older
            × (is_reusable xkb a ≡ true)
            × (reuse_last xkb added ≡ (a.keycode, newer))))
unfolding reuse_last
reuse_last-first xkb [] = inl (tt, refl)
reuse_last-first xkb (b ∷ added) = elim (Bool-cases (is_reusable xkb b)) [
  | inl hit ↦ inr ([], b, added, (refl, tt, hit, if-true (is_reusable xkb b) _ _ hit))
  | inr miss ↦ elim (reuse_last-first xkb added) [
    | inl (all, is) ↦ inl ((miss, all), if-false (is_reusable xkb b) _ _ miss ∙ is)
    | inr (older, a, newer, (parts, all, fit, is)) ↦ inr (
      b ∷ older,
      a,
      newer,
      (ap (λ l. b ∷ l) parts, (miss, all), fit, if-false (is_reusable xkb b) _ _ miss ∙ is),
    )
  ]
]

reverse-parts :
    (added older newer : List AddedKeySym) (a : AddedKeySym)
    → reverse added ≡ older ++ a ∷ newer
    → added ≡ reverse newer ++ a ∷ reverse older
reverse-parts added older newer a parts =
    sym (reverse-reverse added)
    ∙ ap reverse parts
    ∙ reverse-append older (a ∷ newer)
    ∙ ap (λ l. l ++ reverse older) (reverse-cons a newer)
    ∙ append_assoc (reverse newer) (a ∷ []) (reverse older)

-- getReusableKeycode returns 0 and empties the list where the map has changed the keys of all items,
-- or it returns the key of the item used least recently whose key the map has not changed, and leaves
-- the items used after it.
pub reusable_keycode-oldest :
    (xkb : Xkb) (added : List AddedKeySym)
    → let (key, left) = reusable_keycode xkb added in
      ((key ≡ 0) × (left ≡ []) × AllChanged xkb added)
      ⊎ ((a : AddedKeySym) × (older : List AddedKeySym) × ((added ≡ left ++ a ∷ older)
            × (key ≡ a.keycode)
            × (is_reusable xkb a ≡ true)
            × AllChanged xkb older))
unfolding reusable_keycode
reusable_keycode-oldest xkb added = elim (reuse_last-first xkb (reverse added)) [
  | inl (all, is) ↦ inl (
    ap (λ (r : ℕ × List AddedKeySym). r.0) is,
    ap (λ (r : ℕ × List AddedKeySym). reverse r.1) is,
    subst (AllChanged xkb) (reverse-reverse added) (AllChanged-reverse xkb (reverse added) all),
  )
  | inr (older, a, newer, (parts, all, fit, is)) ↦
      let left_is = ap (λ (r : ℕ × List AddedKeySym). reverse r.1) is in
      inr (
        a,
        reverse older,
        (
          reverse-parts added older newer a parts ∙ ap (λ l. l ++ a ∷ reverse older) (sym left_is),
          ap (λ (r : ℕ × List AddedKeySym). r.0) is,
          fit,
          AllChanged-reverse xkb older all,
        ),
      )
]
