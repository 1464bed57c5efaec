-- ===== src/Keyboard/Pairing.antt =====
-- The table `pressedKeys` of lorieKeysymKeyboardEvent, of app/src/main/cpp/lorie/InputXKB.c: the
-- release of a symbol releases the key that its press sent.
use termux_x11_extra.Base.{
  ℕ, zero, suc, ◌+◌, ◌≤◌, ◌<◌, ◌≡◌, ◌≢◌, ◌⊎◌, inl, inr, refl, ap, sym, ◌∙◌, List, [], ◌∷◌, Option,
  none, some, ◌==◌, arith, if-elim, Bool-cases, ==_iff,
}
use mathlib.Core.Path.{subst}
use termux_x11_extra.Keyboard.{Xkb}
use termux_x11_extra.Keyboard.Choice.{
  release, Keyboard, Server, Choice, choose_key, avoid_fake_shift, found_or_added, found_after_add,
  find_on, first_alt, alts, alt_keysyms, with_choice, needs_fake_shift, first_unshifted,
}
use termux_x11_extra.Keyboard.Events.{
  Sent, Fake, is_unable, store_pressed, press_faked, press_choice, press_keysym, process_queue,
  find_pressed, release_found, release_keysym,
}
use termux_x11_extra.Keyboard.Added.{AddedKeySym, add_keysym}

-- No symbol stands at two keys.
abbrev pub IsPaired : (ℕ → ℕ) → Type 0
IsPaired pressed = (i j : ℕ) → pressed i ≢ 0 → pressed i ≡ pressed j → i ≡ j

pub store_pressed-key :
    (key keysym : ℕ) (pressed : ℕ → ℕ) → store_pressed key keysym pressed key ≡ keysym
store_pressed-key key keysym pressed = ground arith

store_pressed-only :
    (key keysym : ℕ) (pressed : ℕ → ℕ) (i : ℕ)
    → keysym ≢ 0
    → store_pressed key keysym pressed i ≡ keysym
    → i ≡ key
store_pressed-only key keysym pressed i nonzero is = ground arith

store_pressed-IsPaired :
    (key keysym : ℕ) (pressed : ℕ → ℕ)
    → IsPaired pressed
    → IsPaired (store_pressed key keysym pressed)
store_pressed-IsPaired key keysym pressed paired i j nonzero same = ground (arith, paired i j)

pub store_pressed-elsewhere :
    (key keysym : ℕ) (pressed : ℕ → ℕ) (kept i : ℕ)
    → pressed i ≡ kept
    → key ≢ i
    → keysym ≢ kept
    → store_pressed key keysym pressed i ≡ kept
store_pressed-elsewhere key keysym pressed kept i at away apart = ground (arith, at, away, apart)

find_pressed-at :
    (pressed : ℕ → ℕ) (keysym key n i : ℕ)
    → pressed key ≡ keysym
    → ((j : ℕ) → pressed j ≡ keysym → j ≡ key)
    → i ≤ key
    → key < i + n
    → find_pressed pressed keysym n i ≡ some key
unfolding find_pressed
find_pressed-at pressed keysym key zero i at only from to = absurd (omega arith)
find_pressed-at pressed keysym key (suc n) i at only from to =
    if-elim (λ o. o ≡ some key) (pressed i == keysym) _ _
      (λ hit. ap some (only i ((==_iff (pressed i) keysym).0 hit)))
      (λ miss.
        find_pressed-at pressed keysym key n (i + 1) at only
          (elim (Bool-cases (i == key)) [
            | inl same ↦
                let e : i ≡ key = (==_iff i key).0 same in
                let hit : pressed i ≡ keysym = ap pressed e ∙ at in
                absurd (ground (arith, hit, miss))
            | inr other ↦ ground arith
          ])
          (omega arith))

-- While a symbol stands at a key, its release sends the release of that key and takes it off the
-- table, whatever the key map and the other keys are by then.
pub release_keysym-pressed :
    (sv : Server) (keysym : ℕ) (k : Keyboard) (key : ℕ)
    → IsPaired k.pressed
    → keysym ≢ 0
    → key < 256
    → k.pressed key ≡ keysym
    → ((release_keysym sv keysym k).1 ≡ release key ∷ [])
      × ((j : ℕ) → (release_keysym sv keysym k).0.pressed j ≢ keysym)
unfolding release_keysym
release_keysym-pressed sv keysym k key paired nonzero small at =
    let only : (j : ℕ) → k.pressed j ≡ keysym → j ≡ key =
      λ j is. paired j key (λ zero_at. nonzero (sym is ∙ zero_at)) (is ∙ sym at) in
    let found = find_pressed-at k.pressed keysym key 256 0 at only (omega arith) (omega arith) in
    subst
      (λ o.
        ((release_found sv k o).1 ≡ release key ∷ [])
        × ((j : ℕ) → (release_found sv k o).0.pressed j ≢ keysym))
      (sym found) (refl, λ j is. ground (arith, only j))

-- Neither the choice of the key nor the fakes change the table.
with_choice-pressed :
    (c : Choice) (o : Option (ℕ × ℕ)) → (with_choice c o).keyboard.pressed ≡ c.keyboard.pressed
with_choice-pressed c none = refl
with_choice-pressed c (some (key, new_state)) = refl

avoid_fake_shift-pressed :
    (keysym : ℕ) (c : Choice) → (avoid_fake_shift keysym c).keyboard.pressed ≡ c.keyboard.pressed
unfolding avoid_fake_shift
avoid_fake_shift-pressed keysym c =
    let d = c.keyboard.device in
    if-elim (λ (c' : Choice). c'.keyboard.pressed ≡ c.keyboard.pressed)
      (needs_fake_shift d (c.key, c.new_state)) _ _
      (λ _. with_choice-pressed c (first_unshifted d (alts keysym alt_keysyms))) (λ _. refl)

found_after_add-pressed :
    (keysym : ℕ) (k : Keyboard) (key : ℕ) (xkb : Xkb) (added : List AddedKeySym)
    → (found_after_add keysym k (key, xkb, added)).keyboard.pressed ≡ k.pressed
found_after_add-pressed keysym k key xkb added =
    if-elim (λ (c : Choice). c.keyboard.pressed ≡ k.pressed) (key == 0) _ _ (λ _. refl) (λ _. refl)

found_or_added-pressed :
    (sv : Server) (keysym : ℕ) (k : Keyboard) (o : Option (ℕ × ℕ))
    → (found_or_added sv keysym k o).keyboard.pressed ≡ k.pressed
found_or_added-pressed sv keysym k none =
    let r = add_keysym sv.change_types sv.allocated keysym k.device.xkb k.added in
    found_after_add-pressed keysym k r.0 r.1 r.2
found_or_added-pressed sv keysym k (some found) = refl

choose_key-pressed :
    (sv : Server) (keysym : ℕ) (k : Keyboard)
    → (choose_key sv keysym k).keyboard.pressed ≡ k.pressed
unfolding choose_key
choose_key-pressed sv keysym k =
    if-elim (λ (c : Choice). c.keyboard.pressed ≡ k.pressed) ((find_on k.device keysym).0 == 0) _ _
      (λ _. found_or_added-pressed sv keysym k (first_alt k.device (alts keysym alt_keysyms)))
      (λ _. refl)

-- The table stays and no key is sent, or the symbol is stored at the key.
abbrev pub IsStored : ℕ → (ℕ → ℕ) → Sent → Type 0
IsStored keysym pressed s =
    ((s.key ≡ 0) × (s.keyboard.pressed ≡ pressed))
    ⊎ (s.keyboard.pressed ≡ store_pressed s.key keysym pressed)

press_faked-IsStored :
    (sv : Server) (keysym : ℕ) (k : Keyboard) (key : ℕ) (f g : Fake) (pressed : ℕ → ℕ)
    → k.pressed ≡ pressed
    → IsStored keysym pressed (press_faked sv keysym k key f g)
unfolding press_faked
press_faked-IsStored sv keysym k key f g pressed same =
    if-elim (IsStored keysym pressed) (is_unable f) _ _ (λ _. inl (refl, same))
      (λ _.
        if-elim (IsStored keysym pressed) (is_unable g) _ _ (λ _. inl (refl, same))
          (λ _. inr (ap (store_pressed key keysym) same)))

press_choice-IsStored :
    (sv : Server) (keysym : ℕ) (c : Choice) (pressed : ℕ → ℕ)
    → c.keyboard.pressed ≡ pressed
    → IsStored keysym pressed (press_choice sv keysym c)
unfolding press_choice
press_choice-IsStored sv keysym c pressed same =
    let c' = avoid_fake_shift keysym c in
    if-elim (IsStored keysym pressed) (c.key == 0) _ _ (λ _. inl (refl, same))
      (λ _.
        press_faked-IsStored sv keysym c'.keyboard c'.key _ _ pressed
          (avoid_fake_shift-pressed keysym c ∙ same))

pub press_keysym-IsStored :
    (sv : Server) (keysym : ℕ) (k : Keyboard) → IsStored keysym k.pressed (press_keysym sv keysym k)
unfolding press_keysym
press_keysym-IsStored sv keysym k =
    press_choice-IsStored sv keysym (choose_key sv keysym (process_queue sv k)) k.pressed
      (choose_key-pressed sv keysym (process_queue sv k))

pub press_keysym-pressed :
    (sv : Server) (keysym : ℕ) (k : Keyboard)
    → (press_keysym sv keysym k).key ≢ 0
    → let s = press_keysym sv keysym k in s.keyboard.pressed ≡ store_pressed s.key keysym k.pressed
press_keysym-pressed sv keysym k sent = elim (press_keysym-IsStored sv keysym k) [
  | inl (is, kept) ↦ absurd (sent is)
  | inr is ↦ is
]

release_found-IsPaired :
    (sv : Server) (k : Keyboard) (o : Option ℕ)
    → IsPaired k.pressed
    → IsPaired (release_found sv k o).0.pressed
release_found-IsPaired sv k none paired i j nonzero same = paired i j nonzero same
release_found-IsPaired sv k (some key) paired i j nonzero same = ground (arith, paired i j)

-- A press and a release of any symbol keep every symbol at one key at most.
pub press_release-IsPaired :
    (sv : Server) (keysym : ℕ) (k : Keyboard)
    → IsPaired k.pressed
    → IsPaired (press_keysym sv keysym k).keyboard.pressed
      × IsPaired (release_keysym sv keysym k).0.pressed
unfolding release_keysym
press_release-IsPaired sv keysym k paired = (
  elim (press_keysym-IsStored sv keysym k) [
    | inl (is, kept) ↦ subst IsPaired (sym kept) paired
    | inr is ↦
        subst IsPaired (sym is)
          (store_pressed-IsPaired (press_keysym sv keysym k).key keysym k.pressed paired)
  ],
  release_found-IsPaired sv k (find_pressed k.pressed keysym 256 0) paired,
)
