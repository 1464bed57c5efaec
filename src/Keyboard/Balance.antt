-- ===== src/Keyboard/Balance.antt =====
-- The fake modifiers of lorieKeysymKeyboardEvent, of app/src/main/cpp/lorie/InputXKB.c: the events
-- that a press sends undo them.
use termux_x11_extra.Base.{
  ℕ, ◌+◌, ◌≡◌, ◌≢◌, ◌⊎◌, inl, inr, refl, List, [], ◌∷◌, ◌++◌, map, ◌==◌, if◌then◌else◌, arith,
  if-elim,
}
use termux_x11_extra.Keyboard.Choice.{
  KeyEvent, press, release, Keyboard, Server, Choice, choose_key, avoid_fake_shift,
}
use termux_x11_extra.Keyboard.Events.{
  Sent, Fake, nothing, unable, pressing, releasing, fake_events, undo_events, is_unable,
  press_faked, press_choice, press_keysym, process_queue,
}

abbrev one_at : ℕ → ℕ → ℕ
one_at j key = if j == key then 1 else 0

-- How often the events press a key, and how often they release it.
abbrev pub presses : ℕ → List KeyEvent → ℕ
presses j [] = 0
presses j (press key ∷ es) = one_at j key + presses j es
presses j (release key ∷ es) = presses j es

abbrev pub releases : ℕ → List KeyEvent → ℕ
releases j [] = 0
releases j (press key ∷ es) = releases j es
releases j (release key ∷ es) = one_at j key + releases j es

pub presses-append :
    (j : ℕ) (es fs : List KeyEvent) → presses j (es ++ fs) ≡ presses j es + presses j fs
presses-append j [] fs = omega arith
presses-append j (press key ∷ es) fs = omega (arith, presses-append j es fs)
presses-append j (release key ∷ es) fs = presses-append j es fs

pub releases-append :
    (j : ℕ) (es fs : List KeyEvent) → releases j (es ++ fs) ≡ releases j es + releases j fs
releases-append j [] fs = omega arith
releases-append j (press key ∷ es) fs = releases-append j es fs
releases-append j (release key ∷ es) fs = omega (arith, releases-append j es fs)

-- The balance of presses and releases of the same keys.
releases-release :
    (j : ℕ) (keys : List ℕ) → releases j (map release keys) ≡ presses j (map press keys)
releases-release j [] = refl
releases-release j (key ∷ keys) = omega (arith, releases-release j keys)

presses-release : (j : ℕ) (keys : List ℕ) → presses j (map release keys) ≡ 0
presses-release j [] = refl
presses-release j (key ∷ keys) = presses-release j keys

releases-press : (j : ℕ) (keys : List ℕ) → releases j (map press keys) ≡ 0
releases-press j [] = refl
releases-press j (key ∷ keys) = releases-press j keys

-- What is undone is what was faked.
undone :
    (j : ℕ) (f : Fake)
    → presses j (fake_events f) + presses j (undo_events f)
      ≡ releases j (fake_events f) + releases j (undo_events f)
undone j nothing = refl
undone j unable = refl
undone j (pressing key) = omega arith
undone j (releasing keys) =
    omega (arith, releases-release j keys, presses-release j keys, releases-press j keys)

abbrev all_events : Fake → Fake → ℕ → List KeyEvent
all_events f g key =
    fake_events f ++ (fake_events g ++ (press key ∷ (undo_events g ++ undo_events f)))

all_events-balanced :
    (j : ℕ) (f g : Fake) (key : ℕ)
    → presses j (all_events f g key) ≡ releases j (all_events f g key) + one_at j key
all_events-balanced j f g key =
    let rest = press key ∷ (undo_events g ++ undo_events f) in
    omega (
      arith,
      undone j f,
      undone j g,
      presses-append j (fake_events f) (fake_events g ++ rest),
      presses-append j (fake_events g) rest,
      presses-append j (undo_events g) (undo_events f),
      releases-append j (fake_events f) (fake_events g ++ rest),
      releases-append j (fake_events g) rest,
      releases-append j (undo_events g) (undo_events f),
    )

-- No key is sent, or the events press the key and nothing else for good.
abbrev IsBalanced : ℕ → Sent → Type 0
IsBalanced j s = (s.key ≡ 0) ⊎ (presses j s.events ≡ releases j s.events + one_at j s.key)

press_faked-IsBalanced :
    (sv : Server) (keysym : ℕ) (k : Keyboard) (key : ℕ) (f g : Fake) (j : ℕ)
    → IsBalanced j (press_faked sv keysym k key f g)
unfolding press_faked
press_faked-IsBalanced sv keysym k key f g j =
    if-elim (IsBalanced j) (is_unable f) _ _ (λ _. inl refl)
      (λ _.
        if-elim (IsBalanced j) (is_unable g) _ _ (λ _. inl refl)
          (λ _. inr (all_events-balanced j f g key)))

press_choice-IsBalanced :
    (sv : Server) (keysym : ℕ) (c : Choice) (j : ℕ) → IsBalanced j (press_choice sv keysym c)
unfolding press_choice
press_choice-IsBalanced sv keysym c j =
    if-elim (IsBalanced j) (c.key == 0) _ _ (λ _. inl refl)
      (λ _.
        press_faked-IsBalanced sv keysym (avoid_fake_shift keysym c).keyboard
          (avoid_fake_shift keysym c).key _ _ j)

-- Where lorieKeysymKeyboardEvent sends a key for a symbol that goes down, its events press every key
-- as often as they release it, but for that key, which they press once more: each fake modifier is
-- undone.
pub press_keysym-balanced :
    (sv : Server) (keysym : ℕ) (k : Keyboard) (j : ℕ)
    → let s = press_keysym sv keysym k in
      s.key ≢ 0 → presses j s.events ≡ releases j s.events + (if j == s.key then 1 else 0)
unfolding press_keysym
press_keysym-balanced sv keysym k j sent =
    elim (press_choice-IsBalanced sv keysym (choose_key sv keysym (process_queue sv k)) j) [
      | inl is ↦ absurd (sent is)
      | inr is ↦ is
    ]
