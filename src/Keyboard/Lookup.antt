-- ===== src/Keyboard/Lookup.antt =====
-- lorieKeysymToKeycode and lorieGetLevelThreeMask of app/src/main/cpp/lorie/InputXKB.c: the key that
-- yields a symbol, and the modifiers at which it does.
use termux_x11_extra.Base.{
  ℕ, zero, suc, ◌+◌, ◌-◌, bit_and, bit_or, Bool, true, false, not, ◌&&◌, ◌||◌, List, [], ◌∷◌,
  Option, none, some, ◌==◌, if◌then◌else◌,
}
use termux_x11_extra.Keyboard.{
  Xkb, Translated, Action, ActionType, set_mods, lock_mods, other_action, shift_mask, lock_mask,
  and_not, translate_key_code, key_action,
}

-- XK_ISO_Level3_Shift and XK_Mode_switch
abbrev pub iso_level3_shift : ℕ
iso_level3_shift = 0xfe03

abbrev pub mode_switch : ℕ
mode_switch = 0xff7e

abbrev pub fake_keys : List ℕ
fake_keys = 92 ∷ 203 ∷ 204 ∷ 205 ∷ 206 ∷ 207 ∷ []

abbrev pub is_in : ℕ → List ℕ → Bool
is_in key [] = false
is_in key (k ∷ ks) = key == k || is_in key ks

unfoldable pub is_fake : ℕ → Bool
is_fake key = is_in key fake_keys

-- The symbol that the loop compares: in upper case where Lock is not consumed.
abbrev pub cased : Xkb → ℕ → Translated → ℕ
cased xkb state t =
    if bit_and (and_not state t.mods) lock_mask == 0 then t.keysym else xkb.upper t.keysym

-- The two tests of the loop, up to the one for fake keys.
unfoldable pub yields : Xkb → ℕ → ℕ → ℕ → Bool
unfolding translate_key_code
yields xkb state keysym key =
    let t = translate_key_code xkb key state in not (t.keysym == 0) && cased xkb state t == keysym

-- One round of the loop at `key`, which is a hit or not and a fake key or not: the rest of the loop
-- goes on with the fallback that it is given.
abbrev pub look : Bool → Bool → ℕ → (ℕ → ℕ) → ℕ → ℕ
look false fake key rest fallback = rest fallback
look true false key rest fallback = key
look true true key rest fallback = rest (if fallback == 0 then key else fallback)

-- The loop over the keys from `key` on, of which `n` are left.
unfoldable pub scan : Xkb → ℕ → ℕ → ℕ → ℕ → ℕ → ℕ
unfolding yields is_fake
scan xkb state keysym zero key fallback = fallback
scan xkb state keysym (suc n) key fallback =
    look (yields xkb state keysym key) (is_fake key) key (scan xkb state keysym n (key + 1))
      fallback

-- lorieKeysymToKeycode with NULL for the new state.
unfoldable pub find_keycode : Xkb → ℕ → ℕ → ℕ
unfolding scan
find_keycode xkb keysym state =
    scan xkb state keysym (xkb.max_key_code + 1 - xkb.min_key_code) xkb.min_key_code 0

abbrev pub first_key : ℕ → ℕ → ℕ
first_key a b = if a == 0 then b else a

-- The key that stands for the third level.
unfoldable pub level_three_key : Xkb → ℕ → ℕ
unfolding find_keycode
level_three_key xkb state =
    first_key (find_keycode xkb iso_level3_shift state) (find_keycode xkb mode_switch state)

abbrev pub is_set_mods : ActionType → Bool
is_set_mods set_mods = true
is_set_mods lock_mods = false
is_set_mods other_action = false

abbrev pub is_lock_mods : ActionType → Bool
is_lock_mods lock_mods = true
is_lock_mods set_mods = false
is_lock_mods other_action = false

abbrev pub action_mask : Xkb → ℕ → Action → ℕ
action_mask xkb key act = if act.use_mod_map then xkb.modmap key else act.mask

-- The mask of a key that sets modifiers, 0 for any other.
abbrev pub set_mask : Xkb → ℕ → Option Action → ℕ
set_mask xkb key none = 0
set_mask xkb key (some act) = if is_set_mods act.type then action_mask xkb key act else 0

-- lorieGetLevelThreeMask; the number is lorieGetKeyboardState().
unfoldable pub level_three_mask : Xkb → ℕ → ℕ
unfolding level_three_key key_action
level_three_mask xkb kbd =
    let state = and_not kbd 0xff in
    let key = level_three_key xkb state in
    if key == 0 then 0 else set_mask xkb key (key_action xkb key state)

-- (state & ~mask) | ((state & mask) ? 0 : mask)
abbrev pub toggled : ℕ → ℕ → ℕ
toggled state mask = bit_or (and_not state mask) (if bit_and state mask == 0 then mask else 0)

-- The last of the four states.
abbrev pub toggled_both : ℕ → ℕ → ℕ
toggled_both state mask =
    bit_or
      (bit_or (and_not state (bit_or shift_mask mask))
        (if bit_and state shift_mask == 0 then shift_mask else 0))
      (if bit_and state mask == 0 then mask else 0)

-- The attempts with the third level.
abbrev pub try_level_three : Xkb → ℕ → ℕ → ℕ → ℕ × ℕ
try_level_three xkb keysym state mask =
    let s2 = toggled state mask in
    let s3 = toggled_both state mask in
    let k2 = find_keycode xkb keysym s2 in
    if k2 == 0 then (find_keycode xkb keysym s3, s3) else (k2, s2)

-- lorieKeysymToKeycode with an address for the new state: the key and the new state.
unfoldable pub keysym_to_keycode : Xkb → ℕ → ℕ → ℕ → ℕ × ℕ
unfolding find_keycode level_three_mask
keysym_to_keycode xkb kbd keysym state =
    let k0 = find_keycode xkb keysym state in
    let s1 = toggled state shift_mask in
    let k1 = find_keycode xkb keysym s1 in
    let mask = level_three_mask xkb kbd in
    if not (k0 == 0)
    then (k0, state)
    else if not (k1 == 0)
    then (k1, s1)
    else if mask == 0
    then (0, s1)
    else try_level_three xkb keysym state mask
