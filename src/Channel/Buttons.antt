-- ===== src/Channel/Buttons.antt =====
-- The buttons of EVENT_STYLUS in handleLorieEvents, app/src/main/cpp/lorie/cmdentrypoint.c: the button
-- events bring the buttons of before to those of the event.
use mathlib.Core.Path.{subst}
use termux_x11_extra.Base.{
  ℕ, zero, suc, ◌+◌, ◌^◌, ◌<◌, ◌≡◌, inl, inr, refl, sym, ap, ◌∙◌, bit_and, bit_xor, Bool, true,
  false, not, ◌&&◌, ◌/◌, ◌++◌, ◌||◌, List, [], ◌∷◌, ◌==◌, if◌then◌else◌, arith, if-true, Bool-cases,
  ==_iff,
}
use termux_x11_extra.Keyboard.{and_not}
use termux_x11_extra.Channel.{Floats, ScreenSize}
use termux_x11_extra.Channel.Pointer.{
  PointerDevice, mouse, pen, eraser, PointerEvent, motion, button, StylusEvent, Pointers,
  button_event, button_events, device_of, handle_stylus,
}

-- Button `i` of a button state, from 0 on.
abbrev pub bit : ℕ → ℕ → Bool
bit buttons i = not (bit_and buttons (2 ^ i) == 0)

abbrev pub is_same_device : PointerDevice → PointerDevice → Bool
is_same_device mouse mouse = true
is_same_device pen pen = true
is_same_device eraser eraser = true
is_same_device a b = false

-- Whether the button of the device, which has the number i + 1, is down after the events, `down` saying
-- whether it was before them.
abbrev pub is_down : {V : Type 0} → PointerDevice → ℕ → List (PointerEvent V) → Bool → Bool
is_down of i [] down = down
is_down of i (motion device flags mask ∷ es) down = is_down of i es down
is_down of i (button device pressed n ∷ es) down =
    is_down of i es (if is_same_device of device && n == i + 1 then pressed else down)

all_below : ℕ → (ℕ → Bool) → Bool
all_below zero p = true
all_below (suc n) p = p n && all_below n p

all_below-at : (n : ℕ) (p : ℕ → Bool) → all_below n p ≡ true → (x : ℕ) → x < n → p x ≡ true
unfolding all_below
all_below-at zero p all x lt = absurd (omega arith)
all_below-at (suc n) p all x lt = elim (Bool-cases (x == n)) [
  | inl same ↦ subst (λ y. p y ≡ true) (sym ((==_iff x n).0 same)) (ground (arith, all))
  | inr other ↦ all_below-at n p (ground (arith, all)) x (ground arith)
]

abbrev is_same : Bool → Bool → Bool
is_same true b = b
is_same false b = not b

is_same-eq : (a b : Bool) → is_same a b ≡ true → a ≡ b
is_same-eq true true is = refl
is_same-eq true false is = cc
is_same-eq false true is = cc
is_same-eq false false is = refl

module _ (V : Type 0) where
  abbrev sent : PointerDevice → ℕ → ℕ → List (PointerEvent V)
  sent device old new =
      let diff = bit_xor old new in button_events device 3 0 (and_not diff new) (bit_and diff new)

  abbrev is_followed : PointerDevice → ℕ → ℕ → ℕ → Bool
  is_followed device old new i =
      is_same (is_down device i (sent device old new) (bit old i)) (bit new i)

  table :
      (device : PointerDevice)
      → all_below 8 (λ old. all_below 8 (λ new. all_below 3 (is_followed device old new))) ≡ true
  unfolding all_below button_events
  table mouse = refl
  table pen = refl
  table eraser = refl

  sent-follows :
      (device : PointerDevice) (old new i : ℕ)
      → old < 8
      → new < 8
      → i < 3
      → is_down device i (sent device old new) (bit old i) ≡ bit new i
  sent-follows device old new i small small' lt =
      is_same-eq (is_down device i (sent device old new) (bit old i)) (bit new i) (
        all_below-at 3 (is_followed device old new)
          (all_below-at 8 (λ n. all_below 3 (is_followed device old n))
            (all_below-at 8 (λ o. all_below 8 (λ n. all_below 3 (is_followed device o n)))
              (table device) old small)
            new small')
          i lt)

  is_down-append :
      (of : PointerDevice) (i : ℕ) (es fs : List (PointerEvent V)) (down : Bool)
      → is_down of i (es ++ fs) down ≡ is_down of i fs (is_down of i es down)
  is_down-append of i [] fs down = refl
  is_down-append of i (motion device flags mask ∷ es) fs down = is_down-append of i es fs down
  is_down-append of i (button device pressed n ∷ es) fs down =
      is_down-append of i es fs (if is_same_device of device && n == i + 1 then pressed else down)

  -- The events of one device leave the buttons of another.
  button_event-other :
      (of device : PointerDevice) (i j released pressed : ℕ) (down : Bool)
      → is_same_device of device ≡ false
      → is_down of i (button_event {V = V} device j released pressed) down ≡ down
  button_event-other of device i j released pressed down other =
      elim (Bool-cases (bit_and released 1 == 0)) [
        | inl r ↦ elim (Bool-cases (bit_and pressed 1 == 0)) [
          | inl p ↦ rw (r, p) refl
          | inr p ↦ rw (r, p) (rw other refl)
        ]
        | inr r ↦ elim (Bool-cases (bit_and pressed 1 == 0)) [
          | inl p ↦ rw (r, p) (rw other refl)
          | inr p ↦ rw (r, p) (rw other refl)
        ]
      ]

  button_events-other :
      (of device : PointerDevice) (i n j released pressed : ℕ) (down : Bool)
      → is_same_device of device ≡ false
      → is_down of i (button_events {V = V} device n j released pressed) down ≡ down
  unfolding button_events
  button_events-other of device i zero j released pressed down other = refl
  button_events-other of device i (suc n) j released pressed down other =
      is_down-append of i (button_event device j released pressed) _ down
      ∙ button_events-other of device i n (j + 1) (released / 2) (pressed / 2) _ other
      ∙ button_event-other of device i j released pressed down other

-- A stylus event of a device that is there, with button states below 8 in it and before it, where the
-- device's own buttons are as the state before says, which is not so after an event of another device:
-- after the events that it queues, each of the device's three buttons is down where the event says so,
-- those of any other device are as they were, and the state is kept for the next event.
pub handle_stylus-is_down :
    {V : Type 0} (fp : Floats V) (size : ScreenSize) (e : StylusEvent V) (p : Pointers V)
    (down : PointerDevice → ℕ → Bool) (i : ℕ) (other : PointerDevice)
    → (e.is_mouse || p.has_stylus) ≡ true
    → p.buttons_prev < 8
    → e.buttons < 8
    → i < 3
    → down (device_of e) i ≡ bit p.buttons_prev i
    → is_same_device other (device_of e) ≡ false
    → let (p', events) = handle_stylus fp size e p in
      (is_down (device_of e) i events (down (device_of e) i) ≡ bit e.buttons i)
      × (is_down other i events (down other i) ≡ down other i)
      × (p'.buttons_prev ≡ e.buttons)
unfolding handle_stylus
handle_stylus-is_down {V} fp size e p down i other there small small' lt was apart =
    let same = if-true (e.is_mouse || p.has_stylus) _ _ there in
    let diff = bit_xor p.buttons_prev e.buttons in
    (
      ap
            (λ (r : Pointers V × List (PointerEvent V)).
              is_down (device_of e) i r.1 (down (device_of e) i))
            same
          ∙ ap (is_down (device_of e) i (sent V (device_of e) p.buttons_prev e.buttons)) was
          ∙ sent-follows V (device_of e) p.buttons_prev e.buttons i small small' lt,
      ap (λ (r : Pointers V × List (PointerEvent V)). is_down other i r.1 (down other i)) same
          ∙ button_events-other V other (device_of e) i 3 0 (and_not diff e.buttons)
              (bit_and diff e.buttons) (down other i) apart,
      ap (λ (r : Pointers V × List (PointerEvent V)). r.0.buttons_prev) same,
    )
