-- ===== src/Keyboard/Choice.antt =====
-- The key that lorieKeysymKeyboardEvent of app/src/main/cpp/lorie/InputXKB.c takes for a symbol that
-- goes down, and the modifiers under which it is to be pressed.
use termux_x11_extra.Base.{
  ℕ, bit_and, bit_or, Bool, not, ◌&&◌, ◌||◌, List, [], ◌∷◌, Option, none, some, ◌==◌, if◌then◌else◌,
}
use termux_x11_extra.Keyboard.{Xkb, shift_mask}
use termux_x11_extra.Keyboard.Lookup.{keysym_to_keycode}
use termux_x11_extra.Keyboard.Modifiers.{Device, is_affected_by_num_lock}
use termux_x11_extra.Keyboard.Added.{AddedKeySym, add_keysym}

-- QueueKeyboardEvents
pub data KeyEvent : Type 0 where
  press release : ℕ → KeyEvent

-- The X server's state of the keyboard and its queue, `pressedKeys` and `addedKeysyms`.
pub record Keyboard : Type 0 where
  pub device : Device
  pub queued : List KeyEvent
  pub pressed : ℕ → ℕ
  pub added : List AddedKeySym

-- What the X server does: mieqProcessInputEvents with the queue, XkbChangeTypesOfKey; and whether
-- malloc returns memory.
pub record Server : Type 0 where
  pub process : List KeyEvent → Device → Device
  pub change_types : Xkb → ℕ → Xkb
  pub allocated : Bool

-- The pairs of the table altKeysym, by their numbers in X11/keysymdef.h.
abbrev pub alt_keysyms : List (ℕ × ℕ)
alt_keysyms =
    (0xffe1, 0xffe2)
    ∷ (0xffe3, 0xffe4)
    ∷ (0xffe7, 0xffe8)
    ∷ (0xffe9, 0xffea)
    ∷ (0xffeb, 0xffec)
    ∷ (0xffed, 0xffee)
    ∷ (0xff80, 0x20)
    ∷ (0xff89, 0xff09)
    ∷ (0xff8d, 0xff0d)
    ∷ (0xff91, 0xffbe)
    ∷ (0xff92, 0xffbf)
    ∷ (0xff93, 0xffc0)
    ∷ (0xff94, 0xffc1)
    ∷ (0xff95, 0xff50)
    ∷ (0xff96, 0xff51)
    ∷ (0xff97, 0xff52)
    ∷ (0xff98, 0xff53)
    ∷ (0xff99, 0xff54)
    ∷ (0xff9a, 0xff55)
    ∷ (0xff9b, 0xff56)
    ∷ (0xff9c, 0xff57)
    ∷ (0xff9d, 0xff58)
    ∷ (0xff9e, 0xff63)
    ∷ (0xff9f, 0xffff)
    ∷ (0xffbd, 0x3d)
    ∷ (0xffaa, 0x2a)
    ∷ (0xffab, 0x2b)
    ∷ (0xffac, 0x2c)
    ∷ (0xffad, 0x2d)
    ∷ (0xffae, 0x2e)
    ∷ (0xffaf, 0x2f)
    ∷ (0xffb0, 0x30)
    ∷ (0xffb1, 0x31)
    ∷ (0xffb2, 0x32)
    ∷ (0xffb3, 0x33)
    ∷ (0xffb4, 0x34)
    ∷ (0xffb5, 0x35)
    ∷ (0xffb6, 0x36)
    ∷ (0xffb7, 0x37)
    ∷ (0xffb8, 0x38)
    ∷ (0xffb9, 0x39)
    ∷ (0xfe03, 0xff7e)
    ∷ []

abbrev pub alt_of : ℕ → ℕ × ℕ → Option ℕ
alt_of keysym (a, b) = if a == keysym then some b else if b == keysym then some a else none

-- The symbols that mean the same, in the order of the table.
abbrev pub alts : ℕ → List (ℕ × ℕ) → List ℕ
alts keysym [] = []
alts keysym (p ∷ table) =
    let rest = alts keysym table in elim (alt_of keysym p) [ none ↦ rest | some s ↦ s ∷ rest ]

-- lorieKeysymToKeycode on the current state.
abbrev pub find_on : Device → ℕ → ℕ × ℕ
find_on d keysym = keysym_to_keycode d.xkb d.state keysym d.state

-- The loop over the equivalent symbols: the first that some key yields.
unfoldable pub first_alt : Device → List ℕ → Option (ℕ × ℕ)
unfolding keysym_to_keycode
first_alt d [] = none
first_alt d (s ∷ ss) =
    let rest = first_alt d ss in if (find_on d s).0 == 0 then rest else some (find_on d s)

-- (state & ShiftMask) != (new_state & ShiftMask)
abbrev pub changes_shift : ℕ → ℕ → Bool
changes_shift state new_state = not (bit_and state shift_mask == bit_and new_state shift_mask)

abbrev pub needs_fake_shift : Device → ℕ × ℕ → Bool
needs_fake_shift d (key, new_state) =
    changes_shift d.state new_state && is_affected_by_num_lock d key

-- The loop that looks for a symbol without the fake shift.
unfoldable pub first_unshifted : Device → List ℕ → Option (ℕ × ℕ)
unfolding keysym_to_keycode is_affected_by_num_lock
first_unshifted d [] = none
first_unshifted d (s ∷ ss) =
    let rest = first_unshifted d ss in
    if (find_on d s).0 == 0 || needs_fake_shift d (find_on d s) then rest else some (find_on d s)

-- The keyboard, and the key and state that the symbol is sent by: 0 for no key.
pub record Choice : Type 0 where
  pub keyboard : Keyboard
  pub key : ℕ
  pub new_state : ℕ

abbrev pub choice : Keyboard → ℕ × ℕ → Choice
choice k (key, new_state) = record { keyboard = k; key = key; new_state = new_state }

-- The branch `Will have to add a new entry`.
abbrev pub found_after_add : ℕ → Keyboard → ℕ × Xkb × List AddedKeySym → Choice
found_after_add keysym k (key, xkb, added) =
    let device = record k.device { xkb = xkb } in
    let k' = record k { device = device; added = added } in
    if key == 0 then choice k' (0, device.state) else choice k' (find_on device keysym)

abbrev pub found_or_added : Server → ℕ → Keyboard → Option (ℕ × ℕ) → Choice
found_or_added sv keysym k (some found) = choice k found
found_or_added sv keysym k none =
    found_after_add keysym k (add_keysym sv.change_types sv.allocated keysym k.device.xkb k.added)

-- The match, an equivalent, or a new entry.
unfoldable pub choose_key : Server → ℕ → Keyboard → Choice
unfolding first_alt add_keysym
choose_key sv keysym k =
    if (find_on k.device keysym).0 == 0
    then found_or_added sv keysym k (first_alt k.device (alts keysym alt_keysyms))
    else choice k (find_on k.device keysym)

abbrev pub with_choice : Choice → Option (ℕ × ℕ) → Choice
with_choice c none = c
with_choice c (some (key, new_state)) = record c { key = key; new_state = new_state }

-- The choice of an equivalent symbol for the numeric pad.
unfoldable pub avoid_fake_shift : ℕ → Choice → Choice
unfolding first_unshifted
avoid_fake_shift keysym c =
    let d = c.keyboard.device in
    if needs_fake_shift d (c.key, c.new_state)
    then with_choice c (first_unshifted d (alts keysym alt_keysyms))
    else c

-- XK_Tab
abbrev pub tab : ℕ
tab = 0xff09

-- "Shifted Tab"
abbrev pub keep_shift : ℕ → ℕ → ℕ → ℕ
keep_shift keysym state new_state =
    if keysym == tab && not (bit_and state shift_mask == 0)
    then bit_or new_state shift_mask
    else new_state
