-- ===== src/Keyboard/Modifiers.antt =====
-- The keys for faked modifiers, of app/src/main/cpp/lorie/InputXKB.c: loriePressShift,
-- lorieReleaseShift, loriePressLevelThree, lorieReleaseLevelThree and lorieIsAffectedByNumLock.
use termux_x11_extra.Base.{
  ℕ, zero, suc, ◌+◌, ◌-◌, ◌≤◌, ◌≡◌, refl, bit_and, Bool, true, false, not, ◌&&◌, ◌||◌, List, [],
  ◌∷◌, ◌++◌, Option, none, some, ◌==◌, leb, if◌then◌else◌, length, length-append, arith, All,
  All-append, if-elim, ◌≢◌,
}
use termux_x11_extra.Keyboard.{Xkb, Action, shift_mask, and_not, key_action, effective_group}
use termux_x11_extra.Keyboard.Lookup.{
  find_keycode, level_three_key, level_three_mask, set_mask, action_mask, is_set_mods, is_lock_mods,
}

-- The state of the master keyboard: its key map, lorieGetKeyboardState() and key_is_down.
pub record Device : Type 0 where
  pub xkb : Xkb
  pub state : ℕ
  pub down : ℕ → Bool

-- The modifiers that a key sets.
abbrev pub key_mask : Device → ℕ → ℕ
key_mask d key = set_mask d.xkb key (key_action d.xkb key d.state)

-- The loop of loriePressShift.
unfoldable pub first_shift : Device → ℕ → ℕ → ℕ
unfolding key_action
first_shift d zero key = 0
first_shift d (suc n) key =
    let rest = first_shift d n (key + 1) in
    if bit_and (key_mask d key) shift_mask == shift_mask then key else rest

abbrev pub num_keys : Xkb → ℕ
num_keys xkb = xkb.max_key_code + 1 - xkb.min_key_code

-- loriePressShift
unfoldable pub press_shift : Device → ℕ
unfolding first_shift
press_shift d =
    if bit_and d.state shift_mask == 0 then first_shift d (num_keys d.xkb) d.xkb.min_key_code else 0

-- The tests of the two release loops.
unfoldable pub holds : Device → ℕ → ℕ → Bool
unfolding key_action
holds d mask key = d.down key && not (bit_and (key_mask d key) mask == 0)

-- One round of the loop at `key`, which is held or not, with the array full or not.
abbrev pub gather : Bool → Bool → ℕ → (List ℕ → List ℕ) → List ℕ → List ℕ
gather false full key rest keys = rest keys
gather true true key rest keys = []
gather true false key rest keys = rest (keys ++ key ∷ [])

-- The loop of lorieReleaseShift and lorieReleaseLevelThree: the keys that are written, none where
-- there are more than `max`.
unfoldable pub held_keys : Device → ℕ → ℕ → ℕ → ℕ → List ℕ → List ℕ
unfolding holds
held_keys d mask max zero key keys = keys
held_keys d mask max (suc n) key keys =
    gather (holds d mask key) (leb max (length keys)) key (held_keys d mask max n (key + 1)) keys

-- lorieReleaseShift for the mask of Shift, and lorieReleaseLevelThree for that of the third level.
unfoldable pub release_keys : Device → ℕ → ℕ → List ℕ
unfolding held_keys
release_keys d mask max =
    if mask == 0 || bit_and d.state mask == 0
    then []
    else held_keys d mask max (num_keys d.xkb) d.xkb.min_key_code []

abbrev pub is_setting : Option Action → Bool
is_setting none = false
is_setting (some act) = is_set_mods act.type

-- loriePressLevelThree
unfoldable pub press_level_three : Device → ℕ
unfolding level_three_mask level_three_key key_action
press_level_three d =
    let mask = level_three_mask d.xkb d.state in
    let key = level_three_key d.xkb d.state in
    if mask == 0 || not (bit_and d.state mask == 0)
    then 0
    else if key == 0
    then 0
    else if is_setting (key_action d.xkb key d.state)
    then key
    else 0

-- XK_Num_Lock
abbrev pub num_lock : ℕ
num_lock = 0xff7f

-- The mask of a key that locks modifiers, 0 for any other. The map is read at `key`, which is not the
-- key of the action.
abbrev pub lock_mask_at : Xkb → ℕ → Option Action → ℕ
lock_mask_at xkb key none = 0
lock_mask_at xkb key (some act) = if is_lock_mods act.type then action_mask xkb key act else 0

-- lorieIsAffectedByNumLock
unfoldable pub is_affected_by_num_lock : Device → ℕ → Bool
unfolding find_keycode key_action effective_group
is_affected_by_num_lock d key =
    let state = and_not d.state 0xff in
    let lock_key = find_keycode d.xkb num_lock state in
    let mask = lock_mask_at d.xkb key (key_action d.xkb lock_key state) in
    let type = (d.xkb.keys key).types (effective_group d.xkb key state) in
    if lock_key == 0 then false else not (bit_and type.mask mask == 0)

-- The key is down, and the modifiers that it sets have one with the mask in common.
abbrev pub IsHeld : Device → ℕ → ℕ → Type 0
IsHeld d mask key = (d.down key ≡ true) × (bit_and (key_mask d key) mask ≢ 0)

abbrev pub AllHeld : Device → ℕ → List ℕ → Type 0
AllHeld d mask = All (IsHeld d mask)

holds-IsHeld : (d : Device) (mask key : ℕ) → holds d mask key ≡ true → IsHeld d mask key
unfolding holds
holds-IsHeld d mask key h = (ground (arith, h), λ e. ground (arith, h, e))

gather-elim {κ} :
    (P : List ℕ → Type κ) (held full : Bool) (key : ℕ) (rest : List ℕ → List ℕ) (keys : List ℕ)
    → (held ≡ false → P (rest keys))
    → P []
    → (held ≡ true → full ≡ false → P (rest (keys ++ key ∷ [])))
    → P (gather held full key rest keys)
gather-elim P false full key rest keys a b c = a refl
gather-elim P true true key rest keys a b c = b
gather-elim P true false key rest keys a b c = c refl refl

room-bound :
    (max : ℕ) (keys : List ℕ) (key : ℕ)
    → leb max (length keys) ≡ false
    → length (keys ++ key ∷ []) ≤ max
room-bound max keys key room = ground (arith, length-append keys (key ∷ []))

held_keys-bounds :
    (d : Device) (mask max n key : ℕ) (keys : List ℕ)
    → length keys ≤ max
    → AllHeld d mask keys
    → (length (held_keys d mask max n key keys) ≤ max)
      × AllHeld d mask (held_keys d mask max n key keys)
unfolding held_keys
held_keys-bounds d mask max zero key keys short all = (short, all)
held_keys-bounds d mask max (suc n) key keys short all =
    gather-elim (λ ks. (length ks ≤ max) × AllHeld d mask ks) (holds d mask key)
      (leb max (length keys)) key (held_keys d mask max n (key + 1)) keys
      (λ _. held_keys-bounds d mask max n (key + 1) keys short all) (omega arith, tt)
      (λ held room.
        held_keys-bounds d mask max n (key + 1) (keys ++ key ∷ []) (room-bound max keys key room)
          (All-append (IsHeld d mask) keys (key ∷ []) all (holds-IsHeld d mask key held, tt)))

-- The keys that lorieReleaseShift and lorieReleaseLevelThree write fit the array, and each of them is
-- down and sets one of the modifiers.
pub release_keys-bounds :
    (d : Device) (mask max : ℕ)
    → (length (release_keys d mask max) ≤ max) × AllHeld d mask (release_keys d mask max)
unfolding release_keys
release_keys-bounds d mask max =
    if-elim (λ ks. (length ks ≤ max) × AllHeld d mask ks) (mask == 0 || bit_and d.state mask == 0) _
      _ (λ _. (omega arith, tt))
      (λ _. held_keys-bounds d mask max (num_keys d.xkb) d.xkb.min_key_code [] (omega arith) tt)
