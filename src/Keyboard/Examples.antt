-- ===== src/Keyboard/Examples.antt =====
-- Runs of the keyboard of app/src/main/cpp/lorie/InputXKB.c on a small key map.
use termux_x11_extra.Base.{
  ℕ, ◌+◌, ◌≤◌, ◌≡◌, ◌⊎◌, refl, true, false, List, [], ◌∷◌, none, some, ◌==◌, if◌then◌else◌, arith,
  length,
}
use termux_x11_extra.Keyboard.{
  MapEntry, KeyType, wrap, set_mods, other_action, Action, Key, Xkb, shift_mask,
}
use termux_x11_extra.Keyboard.Lookup.{keysym_to_keycode, level_three_mask, toggled, toggled_both}
use termux_x11_extra.Keyboard.Modifiers.{AllHeld, release_keys, release_keys-bounds}
use termux_x11_extra.Keyboard.Added.{AddedKeySym, reusable_keycode}
use termux_x11_extra.Keyboard.Choice.{press, release, Keyboard, Server}
use termux_x11_extra.Keyboard.Events.{press_keysym, release_keysym}
use termux_x11_extra.Keyboard.Found.{AllMiss, keysym_to_keycode-none}
use termux_x11_extra.Keyboard.Balance.{presses, releases, press_keysym-balanced}
use termux_x11_extra.Keyboard.Pairing.{IsPaired, press_release-IsPaired}
use termux_x11_extra.Keyboard.Between.{goes_up, keysym_events, release-press_keysym}

abbrev one_level : KeyType
one_level = record { mask = 0; map = none; preserve = none }

abbrev entry : ℕ → ℕ → MapEntry
entry mask level = record { active = true; mask = mask; level = level }

abbrev two_levels : KeyType
two_levels = record { mask = 1; map = some (entry 1 1 ∷ []); preserve = none }

-- Shift (1) and the third level (128).
abbrev four_levels : KeyType
four_levels = record {
  mask = 129;
  map = some (entry 1 1 ∷ entry 128 2 ∷ entry 129 3 ∷ []);
  preserve = none;
}

-- With Control (4) held it has no symbol.
abbrev control_level : KeyType
control_level = record { mask = 4; map = some (entry 4 1 ∷ []); preserve = none }

abbrev no_key : Key
no_key = record {
  num_groups = 0;
  out_of_range = wrap;
  groups_width = 0;
  types = λ _. one_level;
  syms = λ _. 0;
  actions = none;
  name = 0;
}

abbrev key_of : KeyType → ℕ → (ℕ → ℕ) → Key
key_of type width syms = record no_key {
  num_groups = 1;
  groups_width = width;
  types = λ _. type;
  syms = syms;
}

abbrev setting : ℕ → ℕ → Action
setting mask i = record {
  type = if i == 0 then set_mods else other_action;
  use_mod_map = false;
  mask = mask;
}

abbrev letter : Key
letter = key_of two_levels 2 (λ i. if i == 0 then 97 else 65)

abbrev shift_key : Key
shift_key = record (key_of one_level 1 (λ _. 0xffe1)) { actions = some (setting 1) }

abbrev level_key : Key
level_key = record (key_of control_level 2 (λ i. if i == 0 then 0xfe03 else 0)) {
  actions = some (setting 128);
}

abbrev euro_key : Key
euro_key = key_of four_levels 4 (λ i. if i == 3 then 500 else (if i == 2 then 400 else 101))

abbrev key_at : ℕ → Key
key_at key =
    if key == 9
    then letter
    else if key == 10
    then shift_key
    else if key == 11
    then level_key
    else (if key == 12 then euro_key else no_key)

-- The keys 8 to 13.
abbrev small_map : Xkb
small_map = record {
  min_key_code = 8;
  max_key_code = 13;
  keys = key_at;
  modmap = λ _. 0;
  has_names = true;
  group_of = λ _. 0;
  lower = λ s. s;
  upper = λ s. s;
}

abbrev idle : Keyboard
idle = record {
  device = record { xkb = small_map; state = 0; down = λ _. false };
  queued = [];
  pressed = λ _. 0;
  added = [];
}

-- A server on which the events leave the device as it is.
abbrev server : Server
server = record {
  process = λ es d. d;
  change_types = λ xkb key. record xkb {
    keys = λ j. if j == key then key_of two_levels 2 (λ _. 0) else xkb.keys j;
  };
  allocated = true;
}

-- A letter as it is, with a fake Shift, and with both modifiers.
plain : (press_keysym server 97 idle).events ≡ press 9 ∷ []
unfolding press_keysym
plain = refl

shifted : (press_keysym server 65 idle).events ≡ press 10 ∷ press 9 ∷ release 10 ∷ []
unfolding press_keysym
shifted = refl

both_levels :
    (press_keysym server 500 idle).events
    ≡ press 10 ∷ press 11 ∷ press 12 ∷ release 11 ∷ release 10 ∷ []
unfolding press_keysym
both_levels = refl

-- With Control held the key of the third level is not found: the fake Shift stays queued.
abbrev control_held : Keyboard
control_held = record idle { device = record { xkb = small_map; state = 4; down = λ _. false } }

stuck_shift : (press_keysym server 500 control_held).keyboard.queued ≡ press 10 ∷ []
unfolding press_keysym
stuck_shift = refl

-- A held Shift is released for the time of the event.
abbrev shift_held : Keyboard
shift_held = record idle { device = record { xkb = small_map; state = 1; down = λ k. k == 10 } }

unshifted : (press_keysym server 97 shift_held).events ≡ release 10 ∷ press 9 ∷ press 10 ∷ []
unfolding press_keysym
unshifted = refl

-- A symbol that no key has gets the key 13.
added_key : (press_keysym server 300 idle).events ≡ press 13 ∷ []
unfolding press_keysym
added_key = refl

keysym_to_keycode-none_example :
    let mask = level_three_mask small_map 0 in
    AllMiss small_map 0 300
    × AllMiss small_map (toggled 0 shift_mask) 300
    × ((mask ≡ 0)
        ⊎ (AllMiss small_map (toggled 0 mask) 300 × AllMiss small_map (toggled_both 0 mask) 300))
unfolding keysym_to_keycode
keysym_to_keycode-none_example = keysym_to_keycode-none small_map 0 300 0 (omega arith) refl

-- A map of which the key 92 alone has the symbol.
abbrev fake_map : Xkb
fake_map = record small_map {
  max_key_code = 100;
  keys = λ key. if key == 92 then letter else no_key;
}

release_keys-bounds_example :
    (length (release_keys shift_held.device 1 8) ≤ 8)
    × AllHeld shift_held.device 1 (release_keys shift_held.device 1 8)
release_keys-bounds_example = release_keys-bounds shift_held.device 1 8

press_keysym-balanced_example :
    let s = press_keysym server 500 idle in
    presses 10 s.events ≡ releases 10 s.events + (if 10 == s.key then 1 else 0)
unfolding press_keysym
press_keysym-balanced_example =
    press_keysym-balanced server 500 idle 10 (λ e. absurd (omega (arith, e)))

abbrev letter_pressed : Keyboard
letter_pressed = record idle { pressed = λ i. if i == 9 then 97 else 0 }

letter_only : IsPaired letter_pressed.pressed
letter_only i j nonzero same = ground arith

press_release-IsPaired_example :
    IsPaired (press_keysym server 65 letter_pressed).keyboard.pressed
    × IsPaired (release_keysym server 65 letter_pressed).0.pressed
press_release-IsPaired_example = press_release-IsPaired server 65 letter_pressed letter_only

release-press_keysym_example :
    (release_keysym server 65
      (keysym_events server (goes_up 97 ∷ []) (press_keysym server 65 letter_pressed).keyboard)).1
    ≡ release (press_keysym server 65 letter_pressed).key ∷ []
unfolding press_keysym
release-press_keysym_example =
    release-press_keysym server server server 65 letter_pressed (goes_up 97 ∷ []) letter_only
      (λ e. omega (arith, e)) (λ e. omega (arith, e)) (omega arith) ((λ e. omega (arith, e)), tt)

-- Three added keys, the last of them changed by someone else.
abbrev item : ℕ → ℕ → AddedKeySym
item sym code = record { keysym = sym; keycode = code }

abbrev added_map : Xkb
added_map = record small_map {
  keys =
      λ key. record (key_of one_level 1 (λ _. if key == 10 then 7 else 300 + key)) { name = b'T' };
}

abbrev items : List AddedKeySym
items = item 308 8 ∷ item 309 9 ∷ item 310 10 ∷ []

reused : reusable_keycode added_map items ≡ (9, item 308 8 ∷ [])
unfolding reusable_keycode
reused = refl
