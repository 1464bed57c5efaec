-- ===== src/Keyboard/Added.antt =====
-- The symbols that the server adds to the key map, of app/src/main/cpp/lorie/InputXKB.c:
-- saveAddedKeysym, vncOnKeyUsed, getReusableKeycode and lorieAddKeysym. The list `addedKeysyms` has
-- the key used last in front.
use mathlib.Core.List.{reverse}
use termux_x11_extra.Base.{
  ℕ, zero, suc, ◌+◌, Bool, not, ◌&&◌, ◌||◌, List, [], ◌∷◌, ◌++◌, Option, none, some, ◌==◌, ltb,
  if◌then◌else◌,
}
use termux_x11_extra.Keyboard.{Xkb, Key}
use termux_x11_extra.Keyboard.Modifiers.{num_keys}

pub record AddedKeySym : Type 0 where
  pub keysym : ℕ
  pub keycode : ℕ

-- saveAddedKeysym; the Boolean says whether malloc returned memory.
unfoldable pub save_added : Bool → ℕ → ℕ → List AddedKeySym → List AddedKeySym
save_added allocated code sym added =
    if allocated then record { keysym = sym; keycode = code } ∷ added else added

-- The first item with the key code, taken out: the items before and behind it, and the item.
abbrev pub take_used : ℕ → List AddedKeySym → List AddedKeySym × List AddedKeySym
take_used code [] = ([], [])
take_used code (a ∷ added) =
    let (others, used) = take_used code added in
    if a.keycode == code then (added, a ∷ []) else (a ∷ others, used)

-- vncOnKeyUsed
unfoldable pub on_key_used : ℕ → List AddedKeySym → List AddedKeySym
on_key_used code [] = []
on_key_used code (a ∷ added) =
    let (others, used) = take_used code (a ∷ added) in
    if a.keycode == code then a ∷ added else used ++ others

-- The test that no one else has changed the key; the letter is 'T'.
abbrev pub is_unchanged : Xkb → AddedKeySym → Bool
is_unchanged xkb a =
    let k = xkb.keys a.keycode in
    ltb 0 k.num_groups && (k.syms 0 == a.keysym && (not xkb.has_names || k.name == b'T'))

-- The loop of getReusableKeycode on the list from its last item on: the key, and what is left.
unfoldable pub reuse_last : Xkb → List AddedKeySym → ℕ × List AddedKeySym
reuse_last xkb [] = (0, [])
reuse_last xkb (a ∷ added) =
    let rest = reuse_last xkb added in
    if is_unchanged xkb a && not (a.keycode == 0) then (a.keycode, added) else rest

-- getReusableKeycode
unfoldable pub reusable_keycode : Xkb → List AddedKeySym → ℕ × List AddedKeySym
unfolding reuse_last
reusable_keycode xkb added = let (key, left) = reuse_last xkb (reverse added) in (key, reverse left)

-- The loop that looks for a key without groups, from the last key down. `n` keys are left, the lowest
-- of them `low`.
unfoldable pub last_free : Xkb → ℕ → ℕ → Option ℕ
last_free xkb low zero = none
last_free xkb low (suc n) =
    let rest = last_free xkb low n in
    if (xkb.keys (low + n)).num_groups == 0 then some (low + n) else rest

abbrev pub take_key : Xkb → List AddedKeySym → Option ℕ → ℕ × List AddedKeySym
take_key xkb added none = reusable_keycode xkb added
take_key xkb added (some key) = (key, added)

-- The key for the new symbol: 0 where there is none.
unfoldable pub new_key : Xkb → List AddedKeySym → ℕ × List AddedKeySym
unfolding last_free reusable_keycode
new_key xkb added = take_key xkb added (last_free xkb xkb.min_key_code (num_keys xkb))

abbrev pub with_key : Xkb → ℕ → Key → Xkb
with_key xkb key k = record xkb { keys = λ j. if j == key then k else xkb.keys j }

-- `name[0] = 'T'`
abbrev pub name_key : Xkb → ℕ → Xkb
name_key xkb key =
    if xkb.has_names then with_key xkb key (record (xkb.keys key) { name = b'T' }) else xkb

-- `syms[0] = lower; syms[1] = upper;`
abbrev pub with_syms : ℕ → ℕ → Key → Key
with_syms lower upper k = record k {
  syms = λ i. if i == 0 then lower else (if i == 1 then upper else k.syms i);
}

-- The symbol that the key gets; `change_types` is XkbChangeTypesOfKey to one alphabetic group.
abbrev pub put_keysym : (Xkb → ℕ → Xkb) → Xkb → ℕ → ℕ → Xkb
put_keysym change_types xkb key keysym =
    let xkb' = change_types (name_key xkb key) key in
    with_key xkb' key (with_syms (xkb.lower keysym) (xkb.upper keysym) (xkb'.keys key))

-- lorieAddKeysym: the key or 0, the map and the list.
unfoldable pub add_keysym :
    (Xkb → ℕ → Xkb) → Bool → ℕ → Xkb → List AddedKeySym → ℕ × Xkb × List AddedKeySym
unfolding new_key save_added
add_keysym change_types allocated keysym xkb added =
    let (key, left) = new_key xkb added in
    if key == 0 then (0, xkb, left) else (
      key,
      put_keysym change_types xkb key keysym,
      save_added allocated key (xkb.lower keysym) left,
    )
