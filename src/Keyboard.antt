-- ===== src/Keyboard.antt =====
-- The keyboard of the server, app/src/main/cpp/lorie/InputXKB.c: the key map of the X server that the
-- code reads, and the translation of a key under modifiers.
-- The key map (XkbDescRec) is the X server's. `Xkb` has the parts of it that the code uses, and the
-- macros and functions of the X server that compute with numbers alone.
pub mod Lookup
pub mod Modifiers
pub mod Added
pub mod Choice
pub mod Events
pub mod Found
pub mod Balance
pub mod Pairing
pub mod Between
pub mod Recent
mod Examples
use termux_x11_extra.Base.{
  ℕ, ◌+◌, ◌-◌, ◌*◌, ◌%◌, ◌^◌, bit_and, Bool, true, false, not, ◌&&◌, ◌||◌, List, [], ◌∷◌, Option,
  none, some, ◌==◌, leb, ltb, if◌then◌else◌, get_or,
}

-- An entry of a key type's map: the modifiers at which it applies, and the level that it selects.
pub record MapEntry : Type 0 where
  pub active : Bool
  pub mask : ℕ
  pub level : ℕ

pub record KeyType : Type 0 where
  pub mask : ℕ
  pub map : Option (List MapEntry)
  pub preserve : Option (List ℕ)

-- XkbOutOfRangeGroupAction, with the group number of the last case.
pub data OutOfRange : Type 0 where
  wrap clamp : OutOfRange
  redirect : ℕ → OutOfRange

pub data ActionType : Type 0 where
  set_mods lock_mods other_action : ActionType

pub record Action : Type 0 where
  pub type : ActionType
  pub use_mod_map : Bool
  pub mask : ℕ

-- What the key map says of one key. The first letter of its name stands in `name`.
pub record Key : Type 0 where
  pub num_groups : ℕ
  pub out_of_range : OutOfRange
  pub groups_width : ℕ
  pub types : ℕ → KeyType
  pub syms : ℕ → ℕ
  pub actions : Option (ℕ → Action)
  pub name : ℕ

pub record Xkb : Type 0 where
  pub min_key_code : ℕ
  pub max_key_code : ℕ
  pub keys : ℕ → Key
  pub modmap : ℕ → ℕ
  pub has_names : Bool
  pub group_of : ℕ → ℕ  -- XkbGroupForCoreState
  pub lower : ℕ → ℕ  -- XkbConvertCase
  pub upper : ℕ → ℕ

abbrev pub shift_mask : ℕ
shift_mask = 1

abbrev pub lock_mask : ℕ
lock_mask = 2

-- a & ~b on unsigned int.
abbrev pub and_not : ℕ → ℕ → ℕ
and_not a b = bit_and a (2 ^ 32 - 1 - b)

-- XkbKeycodeInRange, and the test for a key without groups.
abbrev pub is_mapped : Xkb → ℕ → Bool
is_mapped xkb key =
    leb xkb.min_key_code key && (leb key xkb.max_key_code && ltb 0 (xkb.keys key).num_groups)

-- The `switch` for a group that the key does not have.
abbrev pub group_in_range : OutOfRange → ℕ → ℕ → ℕ
group_in_range wrap groups g = g % groups
group_in_range clamp groups g = groups - 1
group_in_range (redirect n) groups g = if leb groups n then 0 else n

-- The effective group, of a key that has groups. The code has it three times.
abbrev pub choose_group : Xkb → Key → ℕ → ℕ
choose_group xkb k mods =
    if leb k.num_groups (xkb.group_of mods)
    then group_in_range k.out_of_range k.num_groups (xkb.group_of mods)
    else xkb.group_of mods

-- The loop over the map of a type: the level and the index of the first entry that applies.
abbrev pub find_entry : ℕ → List MapEntry → ℕ → Option (ℕ × ℕ)
find_entry mods [] i = none
find_entry mods (e ∷ map') i =
    if e.active && mods == e.mask then some (e.level, i) else find_entry mods map' (i + 1)

abbrev pub entry_of : KeyType → ℕ → Option (List MapEntry) → Option (ℕ × ℕ)
entry_of type mods none = none
entry_of type mods (some map') = find_entry (bit_and mods type.mask) map' 0

abbrev pub level_of : Option (ℕ × ℕ) → ℕ
level_of none = 0
level_of (some (level, i)) = level

abbrev pub preserved_at : Option (List ℕ) → ℕ → ℕ
preserved_at none i = 0
preserved_at (some masks) i = get_or masks i 0

abbrev pub preserved_of : KeyType → Option (ℕ × ℕ) → ℕ
preserved_of type none = 0
preserved_of type (some (level, i)) = preserved_at type.preserve i

-- The result of XkbTranslateKeyCode with its two results by address.
pub record Translated : Type 0 where
  pub found : Bool
  pub mods : ℕ
  pub keysym : ℕ

abbrev pub translate_mapped : Xkb → Key → ℕ → Translated
translate_mapped xkb k mods =
    let group = choose_group xkb k mods in
    let type = k.types group in
    let entry = entry_of type mods type.map in
    let keysym = k.syms (group * k.groups_width + level_of entry) in
    record {
      found = not (keysym == 0);
      mods = and_not type.mask (preserved_of type entry);
      keysym = keysym;
    }

-- XkbTranslateKeyCode
unfoldable pub translate_key_code : Xkb → ℕ → ℕ → Translated
translate_key_code xkb key mods =
    if is_mapped xkb key
    then translate_mapped xkb (xkb.keys key) mods
    else record { found = false; mods = 0; keysym = 0 }

abbrev pub action_mapped : Xkb → Key → ℕ → (ℕ → Action) → Action
action_mapped xkb k mods acts =
    let group = choose_group xkb k mods in
    let type = k.types group in
    acts (group * k.groups_width + level_of (entry_of type mods type.map))

abbrev pub action_of : Xkb → ℕ → ℕ → Option (ℕ → Action) → Option Action
action_of xkb key mods none = none
action_of xkb key mods (some acts) =
    if is_mapped xkb key then some (action_mapped xkb (xkb.keys key) mods acts) else none

-- XkbKeyActionPtr
unfoldable pub key_action : Xkb → ℕ → ℕ → Option Action
key_action xkb key mods = action_of xkb key mods (xkb.keys key).actions

-- XkbKeyEffectiveGroup
unfoldable pub effective_group : Xkb → ℕ → ℕ → ℕ
effective_group xkb key mods = if is_mapped xkb key then choose_group xkb (xkb.keys key) mods else 0
