-- ===== src/Keyboard/Between.antt =====
-- What happens between the press and the release of a symbol, lorieKeysymKeyboardEvent of
-- app/src/main/cpp/lorie/InputXKB.c: other symbols that go down and up leave its key to it.
use termux_x11_extra.Base.{
  ℕ, zero, suc, ◌+◌, ◌<◌, ◌≡◌, ◌≢◌, inl, inr, ap, sym, ◌∙◌, List, [], ◌∷◌, Option, none, some, ◌==◌,
  if-elim, ==_iff,
}
use termux_x11_extra.Keyboard.Choice.{release, Keyboard, Server}
use termux_x11_extra.Keyboard.Events.{press_keysym, find_pressed, release_found, release_keysym}
use termux_x11_extra.Keyboard.Pairing.{
  IsPaired, store_pressed-key, store_pressed-elsewhere, press_keysym-IsStored, press_keysym-pressed,
  release_keysym-pressed, press_release-IsPaired,
}

-- Symbols that go down and up.
pub data KeysymEvent : Type 0 where
  goes_down : ℕ → KeysymEvent
  goes_up : ℕ → KeysymEvent

unfoldable pub keysym_event : Server → KeysymEvent → Keyboard → Keyboard
unfolding press_keysym release_keysym
keysym_event sv (goes_down keysym) k = (press_keysym sv keysym k).keyboard
keysym_event sv (goes_up keysym) k = (release_keysym sv keysym k).0

unfoldable pub keysym_events : Server → List KeysymEvent → Keyboard → Keyboard
unfolding keysym_event
keysym_events sv [] k = k
keysym_events sv (e ∷ es) k = keysym_events sv es (keysym_event sv e k)

-- Another symbol, which is not sent by the key.
abbrev pub IsElsewhere : Server → ℕ → ℕ → KeysymEvent → Keyboard → Type 0
IsElsewhere sv keysym key (goes_down other) k =
    (other ≢ keysym) × ((press_keysym sv other k).key ≢ key)
IsElsewhere sv keysym key (goes_up other) k = other ≢ keysym

abbrev pub AreElsewhere : Server → ℕ → ℕ → List KeysymEvent → Keyboard → Type 0
AreElsewhere sv keysym key [] k = Unit
AreElsewhere sv keysym key (e ∷ es) k =
    IsElsewhere sv keysym key e k × AreElsewhere sv keysym key es (keysym_event sv e k)

abbrev IsAt : ℕ → ℕ → Keyboard → Type 0
IsAt keysym key k = IsPaired k.pressed × (k.pressed key ≡ keysym)

-- The index that is found has the symbol.
FoundAt : (ℕ → ℕ) → ℕ → Option ℕ → Type 0
FoundAt pressed keysym none = Unit
FoundAt pressed keysym (some j) = pressed j ≡ keysym

find_pressed-FoundAt :
    (pressed : ℕ → ℕ) (keysym n i : ℕ) → FoundAt pressed keysym (find_pressed pressed keysym n i)
unfolding find_pressed FoundAt
find_pressed-FoundAt pressed keysym zero i = tt
find_pressed-FoundAt pressed keysym (suc n) i =
    if-elim (FoundAt pressed keysym) (pressed i == keysym) _ _
      (λ hit. (==_iff (pressed i) keysym).0 hit)
      (λ _. find_pressed-FoundAt pressed keysym n (i + 1))

release_found-at :
    (sv : Server) (k : Keyboard) (keysym key other : ℕ) (o : Option ℕ)
    → FoundAt k.pressed other o
    → other ≢ keysym
    → k.pressed key ≡ keysym
    → (release_found sv k o).0.pressed key ≡ keysym
unfolding FoundAt
release_found-at sv k keysym key other none at apart is = is
release_found-at sv k keysym key other (some j) at apart is =
    if-elim (λ x. x ≡ keysym) (key == j) 0 (k.pressed key)
      (λ same. absurd (apart (sym at ∙ ap k.pressed (sym ((==_iff key j).0 same)) ∙ is))) (λ _. is)

keysym_event-IsAt :
    (sv : Server) (keysym key : ℕ) (e : KeysymEvent) (k : Keyboard)
    → IsElsewhere sv keysym key e k
    → IsAt keysym key k
    → IsAt keysym key (keysym_event sv e k)
unfolding keysym_event release_keysym
keysym_event-IsAt sv keysym key (goes_down other) k (apart, away) (paired, at) = (
  (press_release-IsPaired sv other k paired).0,
  elim (press_keysym-IsStored sv other k) [
    | inl (is, kept) ↦ ap (λ (p : ℕ → ℕ). p key) kept ∙ at
    | inr is ↦
        ap (λ (p : ℕ → ℕ). p key) is
        ∙ store_pressed-elsewhere (press_keysym sv other k).key other k.pressed keysym key at away
            apart
  ],
)
keysym_event-IsAt sv keysym key (goes_up other) k apart (paired, at) = (
  (press_release-IsPaired sv other k paired).1,
  release_found-at sv k keysym key other (find_pressed k.pressed other 256 0)
      (find_pressed-FoundAt k.pressed other 256 0) apart at,
)

keysym_events-IsAt :
    (sv : Server) (keysym key : ℕ) (es : List KeysymEvent) (k : Keyboard)
    → AreElsewhere sv keysym key es k
    → IsAt keysym key k
    → IsAt keysym key (keysym_events sv es k)
unfolding keysym_events
keysym_events-IsAt sv keysym key [] k away at = at
keysym_events-IsAt sv keysym key (e ∷ es) k (a, away) at =
    keysym_events-IsAt sv keysym key es (keysym_event sv e k) away
      (keysym_event-IsAt sv keysym key e k a at)

-- A symbol is pressed, on a table with every symbol at one key at most; then other symbols are pressed
-- and released in any way that sends no press of its key; then it is released. The release sends
-- the release of the key that the press sent, where it sent one below 256, though other symbols may
-- have been at that key before.
pub release-press_keysym :
    (sv sv' sv'' : Server) (keysym : ℕ) (k : Keyboard) (between : List KeysymEvent)
    → let s = press_keysym sv keysym k in
      IsPaired k.pressed
      → keysym ≢ 0
      → s.key ≢ 0
      → s.key < 256
      → AreElsewhere sv' keysym s.key between s.keyboard
      → (release_keysym sv'' keysym (keysym_events sv' between s.keyboard)).1 ≡ release s.key ∷ []
release-press_keysym sv sv' sv'' keysym k between paired nonzero sent small away =
    let s = press_keysym sv keysym k in
    let at : s.keyboard.pressed s.key ≡ keysym =
      ap (λ (p : ℕ → ℕ). p s.key) (press_keysym-pressed sv keysym k sent)
      ∙ store_pressed-key s.key keysym k.pressed in
    let (paired', at') =
      keysym_events-IsAt sv' keysym s.key between s.keyboard away
        ((press_release-IsPaired sv keysym k paired).0, at) in
    (release_keysym-pressed sv'' keysym (keysym_events sv' between s.keyboard) s.key paired' nonzero
      small at').0
