-- ===== src/Keyboard/Found.antt =====
-- What lorieKeysymToKeycode finds: a key that yields the symbol, where there is one, and a key that
-- real keyboards do not send only where no other yields it.
use termux_x11_extra.Base.{
  ℕ, zero, suc, ◌+◌, ◌-◌, ◌≤◌, ◌<◌, ◌≡◌, ◌⊎◌, inl, inr, refl, Bool, true, false, not, arith, ◌==◌,
  if◌then◌else◌, Bool-cases, if-elim,
}
use mathlib.Core.Path.{subst}
use termux_x11_extra.Keyboard.{Xkb, shift_mask}
use termux_x11_extra.Keyboard.Lookup.{
  is_fake, yields, look, scan, find_keycode, level_three_mask, toggled, toggled_both,
  try_level_three, keysym_to_keycode,
}

-- A predicate of a round holds where it holds of its three outcomes.
look-elim {κ} :
    (P : ℕ → Type κ) (hit fake : Bool) (key : ℕ) (rest : ℕ → ℕ) (fallback : ℕ)
    → (hit ≡ false → P (rest fallback))
    → (hit ≡ true → fake ≡ false → P key)
    → (hit ≡ true → fake ≡ true → P (rest (if fallback == 0 then key else fallback)))
    → P (look hit fake key rest fallback)
look-elim P false fake key rest fallback a b c = a refl
look-elim P true false key rest fallback a b c = b refl refl
look-elim P true true key rest fallback a b c = c refl refl

le-cases : (a b : ℕ) → a ≤ b → (a ≡ b) ⊎ (a + 1 ≤ b)
le-cases a b h = elim (Bool-cases (a == b)) [
  | inl same ↦ inl (ground arith)
  | inr other ↦ inr (ground arith)
]

kept-pos : (key fallback : ℕ) → 0 < key → 0 < (if fallback == 0 then key else fallback)
kept-pos key fallback h = ground arith

at-or-after :
    {P : ℕ → Type 0} (key k n : ℕ)
    → P key
    → ((j : ℕ) → key + 1 ≤ j → j < key + 1 + n → P j)
    → key ≤ k
    → k < key + suc n
    → P k
at-or-after {P} key k n here later hk hk' = elim (le-cases key k hk) [
  | inl e ↦ subst P e here
  | inr more ↦ later k more (omega arith)
]

module _ (xkb : Xkb) (state keysym : ℕ) where
  abbrev Yields : ℕ → Type 0
  Yields key = yields xkb state keysym key ≡ true

  abbrev Misses : ℕ → Type 0
  Misses key = yields xkb state keysym key ≡ false

  -- A key that is found yields the symbol and is among those looked at.
  scan-Yields :
      (n key fallback : ℕ) (P : ℕ → Type 0)
      → ((k : ℕ) → key ≤ k → k < key + n → Yields k → P k)
      → (fallback ≡ 0) ⊎ P fallback
      → (scan xkb state keysym n key fallback ≡ 0) ⊎ P (scan xkb state keysym n key fallback)
  unfolding scan
  scan-Yields zero key fallback P each h = h
  scan-Yields (suc n) key fallback P each h =
      let later =
        λ (k : ℕ) (a : key + 1 ≤ k) (b : k < key + 1 + n). each k (omega arith) (omega arith) in
      look-elim (λ r. (r ≡ 0) ⊎ P r) (yields xkb state keysym key) (is_fake key) key
        (scan xkb state keysym n (key + 1)) fallback
        (λ miss. scan-Yields n (key + 1) fallback P later h)
        (λ hit real. inr (each key (omega arith) (omega arith) hit))
        (λ hit fake. scan-Yields n (key + 1) (if fallback == 0 then key else fallback) P later (
          if-elim (λ f. (f ≡ 0) ⊎ P f) (fallback == 0) key fallback
            (λ _. inr (each key (omega arith) (omega arith) hit)) (λ _. h)))

  -- None is found only where none yields it.
  scan-none :
      (n key fallback : ℕ)
      → 0 < key
      → scan xkb state keysym n key fallback ≡ 0
      → (fallback ≡ 0) × ((k : ℕ) → key ≤ k → k < key + n → Misses k)
  unfolding scan
  scan-none zero key fallback pos is = (is, λ k hk hk'. absurd (omega arith))
  scan-none (suc n) key fallback pos is =
      look-elim (λ r. r ≡ 0 → (fallback ≡ 0) × ((k : ℕ) → key ≤ k → k < key + suc n → Misses k))
        (yields xkb state keysym key) (is_fake key) key (scan xkb state keysym n (key + 1)) fallback
        (λ miss is.
          let (empty, others) = scan-none n (key + 1) fallback (omega arith) is in
          (empty, λ k hk hk'. at-or-after key k n miss others hk hk'))
        (λ hit real is. absurd (omega arith))
        (λ hit fake is. absurd (
          omega (
            arith,
            (scan-none n (key + 1) (if fallback == 0 then key else fallback) (omega arith) is).0,
            kept-pos key fallback pos,
          )))
        is

  -- A fake key is found only where no other key yields it.
  scan-fake :
      (n key fallback : ℕ)
      → is_fake (scan xkb state keysym n key fallback) ≡ true
      → (k : ℕ) → key ≤ k
      → k < key + n
      → is_fake k ≡ false
      → Misses k
  unfolding scan
  scan-fake zero key fallback is k hk hk' real = absurd (omega arith)
  scan-fake (suc n) key fallback is k hk hk' real =
      look-elim
        (λ r. is_fake r ≡ true → (k : ℕ) → key ≤ k → k < key + suc n → is_fake k ≡ false → Misses k)
        (yields xkb state keysym key) (is_fake key) key (scan xkb state keysym n (key + 1)) fallback
        (λ miss fake k hk hk'.
          at-or-after {P = λ j. is_fake j ≡ false → Misses j} key k n (λ real. miss)
            (scan-fake n (key + 1) fallback fake) hk hk')
        (λ hit real fake. cc)
        (λ hit fake_key fake k hk hk'.
          at-or-after {P = λ j. is_fake j ≡ false → Misses j} key k n (λ real. cc)
            (scan-fake n (key + 1) (if fallback == 0 then key else fallback) fake) hk hk')
        is k hk hk' real

-- The keys of the map.
abbrev pub IsKey : Xkb → ℕ → Type 0
IsKey xkb key = (xkb.min_key_code ≤ key) × (key ≤ xkb.max_key_code)

abbrev pub AllMiss : Xkb → ℕ → ℕ → Type 0
AllMiss xkb state keysym = (k : ℕ) → IsKey xkb k → yields xkb state keysym k ≡ false

find_keycode-yields :
    (xkb : Xkb) (keysym state : ℕ)
    → (find_keycode xkb keysym state ≡ 0)
      ⊎ (IsKey xkb (find_keycode xkb keysym state)
          × (yields xkb state keysym (find_keycode xkb keysym state) ≡ true))
unfolding find_keycode
find_keycode-yields xkb keysym state =
    let min = xkb.min_key_code in
    let n = xkb.max_key_code + 1 - min in
    scan-Yields xkb state keysym n min 0 (λ k. IsKey xkb k × (yields xkb state keysym k ≡ true))
      (λ k hk hk' hit. ((hk, omega arith), hit)) (inl refl)

find_keycode-none :
    (xkb : Xkb) (keysym state : ℕ)
    → 0 < xkb.min_key_code
    → find_keycode xkb keysym state ≡ 0
    → AllMiss xkb state keysym
unfolding find_keycode
find_keycode-none xkb keysym state pos is k (from, to) =
    let min = xkb.min_key_code in
    let n = xkb.max_key_code + 1 - min in
    (scan-none xkb state keysym n min 0 pos is).1 k from (omega arith)

-- One of the keys that real keyboards do not send is found only where every other key of the map
-- misses the symbol.
pub find_keycode-fake :
    (xkb : Xkb) (keysym state k : ℕ)
    → is_fake (find_keycode xkb keysym state) ≡ true
    → IsKey xkb k
    → is_fake k ≡ false
    → yields xkb state keysym k ≡ false
unfolding find_keycode
find_keycode-fake xkb keysym state k is (from, to) real =
    let min = xkb.min_key_code in
    let n = xkb.max_key_code + 1 - min in
    scan-fake xkb state keysym n min 0 is k from (omega arith) real

-- A result of the search: no key, or a key of the map that yields the symbol under the new state.
abbrev pub IsFound : Xkb → ℕ → ℕ × ℕ → Type 0
IsFound xkb keysym (key, state) = (key ≡ 0) ⊎ (IsKey xkb key × (yields xkb state keysym key ≡ true))

try_level_three-IsFound :
    (xkb : Xkb) (keysym state mask : ℕ) → IsFound xkb keysym (try_level_three xkb keysym state mask)
try_level_three-IsFound xkb keysym state mask =
    if-elim (IsFound xkb keysym) (find_keycode xkb keysym (toggled state mask) == 0) _ _
      (λ _. find_keycode-yields xkb keysym (toggled_both state mask))
      (λ _. find_keycode-yields xkb keysym (toggled state mask))

-- lorieKeysymToKeycode returns 0, or a key of the map that yields the symbol under the new state it
-- returns.
pub keysym_to_keycode-IsFound :
    (xkb : Xkb) (kbd keysym state : ℕ) → IsFound xkb keysym (keysym_to_keycode xkb kbd keysym state)
unfolding keysym_to_keycode
keysym_to_keycode-IsFound xkb kbd keysym state =
    if-elim (IsFound xkb keysym) (not (find_keycode xkb keysym state == 0)) _ _
      (λ _. find_keycode-yields xkb keysym state)
      (λ _.
        if-elim (IsFound xkb keysym) (not (find_keycode xkb keysym (toggled state shift_mask) == 0))
          _ _ (λ _. find_keycode-yields xkb keysym (toggled state shift_mask))
          (λ _.
            if-elim (IsFound xkb keysym) (level_three_mask xkb kbd == 0) _ _ (λ _. inl refl)
              (λ _. try_level_three-IsFound xkb keysym state (level_three_mask xkb kbd))))

-- Where lorieKeysymToKeycode returns 0, on a map whose keys count from 1 or more, no key of the map
-- yields the symbol under the given state or with Shift toggled, nor, where there is a third level,
-- with that toggled alone or together with Shift.
pub keysym_to_keycode-none :
    (xkb : Xkb) (kbd keysym state : ℕ)
    → 0 < xkb.min_key_code
    → (keysym_to_keycode xkb kbd keysym state).0 ≡ 0
    → let mask = level_three_mask xkb kbd in
      AllMiss xkb state keysym
      × AllMiss xkb (toggled state shift_mask) keysym
      × ((mask ≡ 0)
          ⊎ (AllMiss xkb (toggled state mask) keysym
              × AllMiss xkb (toggled_both state mask) keysym))
unfolding keysym_to_keycode
keysym_to_keycode-none xkb kbd keysym state pos is =
    let mask = level_three_mask xkb kbd in
    let none_at = λ (s : ℕ). find_keycode-none xkb keysym s pos in
    (
      none_at state (ground arith),
      none_at (toggled state shift_mask) (ground arith),
      elim (Bool-cases (mask == 0)) [
        | inl no_level ↦ inl (ground arith)
        | inr level ↦ inr (
          none_at (toggled state mask) (ground arith),
          none_at (toggled_both state mask) (ground arith),
        )
      ],
    )
