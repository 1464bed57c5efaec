-- ===== src/Screen/Configure.antt =====
-- lorieConfigureNotify of app/src/main/cpp/lorie/InitOutput.c: the activity's window has a new size, rate or
-- name.
use mathlib.Core.Path.{subst}
use termux_x11_extra.Base.{
  ℕ, zero, suc, ◌/◌, ◌<◌, ◌≡◌, refl, sym, ap, ◌∙◌, Bool, true, false, not, ◌&&◌, ◌||◌, [], ◌∷◌,
  Option, none, some, ◌==◌, ==_refl, if◌then◌else◌, arith, inl, inr, Bool-cases, if-elim,
}
use termux_x11_extra.Text.{Bytes, c_string}
use termux_x11_extra.Activity.Serve.{take}
use termux_x11_extra.Screen.{Settings, Display}
use termux_x11_extra.Screen.Shown.{IsShown, IsResized}
use termux_x11_extra.Screen.Runs.{CanResize, restored, resize-IsResized}
use termux_x11_extra.Screen.Resize.{Resizing, Resized, crash, resized, resize}

-- strncpy of `n` bytes over zeros; the list is the name up to its size, behind which a 0 stands.
abbrev pub padded : ℕ → Bytes → Bytes
padded zero s = []
padded (suc n) [] = 0 ∷ padded n []
padded (suc n) (c ∷ s) =
    let rest = padded n s in let zeros = padded n [] in if c == 0 then 0 ∷ zeros else c ∷ rest

-- name[n] = '\0'
abbrev pub ended_at : ℕ → Bytes → Bytes
ended_at n [] = []
ended_at zero (c ∷ s) = 0 ∷ s
ended_at (suc n) (c ∷ s) = c ∷ ended_at n s

-- RandR: whether there is an output, and the size of the mode that libxcvt makes for a size and a rate.
pub record Randr : Type 0 where
  pub has_output : Bool
  pub mode_of : ℕ → ℕ → ℕ → ℕ × ℕ

-- The arguments, which the callers take from fields of 16 bits; the name is none for NULL.
pub record WindowChange : Type 0 where
  pub width : ℕ
  pub height : ℕ
  pub framerate : ℕ
  pub name : Option Bytes

-- framerate ? framerate : 30
abbrev pub rate_of : WindowChange → ℕ
rate_of w = if w.framerate == 0 then 30 else w.framerate

-- output->name, if it is set.
abbrev pub output_name : Randr → WindowChange → Option Bytes
output_name randr w = elim w.name [
  | none ↦ none
  | some name ↦ if randr.has_output then some (ended_at 1023 (padded 1024 name)) else none
]

abbrev pub root_name : Randr → Option Bytes → Settings → Settings
root_name randr none s = s
root_name randr (some name) s = if randr.has_output then record s { name = padded 1024 name } else s

-- The second condition.
abbrev pub asks_resize : Randr → WindowChange → Settings → Bool
asks_resize randr w s =
    randr.has_output
    && (not (w.width == 0)
        && (not (w.height == 0)
            && (not (s.width == w.width)
                || (not (s.height == w.height) || not (s.framerate == rate_of w)))))

abbrev pub timed : ℕ → Settings → Settings
timed rate s = record s { framerate = rate; vblank_interval = 1000000 / rate }

abbrev pub with_rate : ℕ → Resized → Resized
with_rate rate crash = crash
with_rate rate (resized d notices messages log) =
    resized (record d { settings = timed rate d.settings }) notices messages log

-- lorieConfigureNotify; RRScreenSizeSet calls lorieRRScreenSetSize.
unfoldable pub configure_notify : Randr → Resizing → WindowChange → Display → Resized
unfolding resize
configure_notify randr z w d =
    let d1 = record d { settings = root_name randr w.name d.settings } in
    let (width, height) = randr.mode_of w.width w.height (rate_of w) in
    let r = with_rate (rate_of w) (resize z width height d1) in
    if asks_resize randr w d1.settings then r else resized d1 [] [] []

-- The name of the output is a C string of 1023 bytes at most: the first ones of the name.
pub ended_at-padded :
    (n : ℕ) (name : Bytes) → c_string (ended_at n (padded (suc n) name)) ≡ take n (c_string name)
ended_at-padded zero [] = refl
ended_at-padded zero (c ∷ s) =
    if-elim (λ bs. c_string (ended_at 0 bs) ≡ []) (c == 0) _ _ (λ _. refl) (λ _. refl)
ended_at-padded (suc n) [] = refl
ended_at-padded (suc n) (c ∷ s) = elim (Bool-cases (c == 0)) [
  | inl end ↦ rw end refl
  | inr more ↦ rw more (rw more (ap (λ l. c ∷ l) (ended_at-padded n s)))
]

-- The frames have a length, as the rate says.
abbrev pub IsTimed : Settings → Type 0
IsTimed s = (0 < s.framerate) × (s.vblank_interval ≡ 1000000 / s.framerate)

-- There is no crash; the screen is shown; the frames are timed; and the same window asks for no other
-- size or rate.
abbrev pub IsConfigured : Randr → WindowChange → Resized → Type 0
IsConfigured randr w crash = ⊥
IsConfigured randr w (resized d notices messages log) =
    IsShown d × IsTimed d.settings × (asks_resize randr w d.settings ≡ false)

rate_of-positive : (w : WindowChange) → 0 < rate_of w
rate_of-positive w = ground arith

asks_resize-settled :
    (randr : Randr) (w : WindowChange) (s : Settings)
    → asks_resize randr w (timed (rate_of w) (record s { width = w.width; height = w.height }))
      ≡ false
asks_resize-settled randr w s =
    rw (==_refl w.width, ==_refl w.height, ==_refl (rate_of w)) (ground arith)

with_rate-IsConfigured :
    (randr : Randr) (w : WindowChange) (s : Settings) (r : Resized)
    → IsResized w.width w.height s r
    → IsConfigured randr w (with_rate (rate_of w) r)
with_rate-IsConfigured randr w s crash is = absurd is
with_rate-IsConfigured randr w s (resized d notices messages log) (same, shown) = (
  shown,
  (rate_of-positive w, refl),
  ap (λ x. asks_resize randr w (timed (rate_of w) x)) same ∙ asks_resize-settled randr w s,
)

root_name-IsTimed :
    (randr : Randr) (name : Option Bytes) (s : Settings)
    → IsTimed s
    → IsTimed (root_name randr name s)
root_name-IsTimed randr none s is = is
root_name-IsTimed randr (some name) s is = if-elim IsTimed randr.has_output _ _ (λ _. is) (λ _. is)

abbrev pub named : Randr → WindowChange → Display → Display
named randr w d = record d { settings = root_name randr w.name d.settings }

-- Whatever size, rate and name the window has, where libxcvt makes a mode of the size and, if another
-- size or rate is asked for, the screen can have that size: there is no crash; a screen that is shown
-- and whose frames are timed by their rate stays so; and asking again changes neither size nor rate.
pub configure_notify-IsConfigured :
    (randr : Randr) (z : Resizing) (w : WindowChange) (d : Display)
    → randr.mode_of w.width w.height (rate_of w) ≡ (w.width, w.height)
    → (asks_resize randr w (named randr w d).settings ≡ true
        → CanResize z w.width w.height (named randr w d))
    → IsShown d
    → IsTimed d.settings
    → IsConfigured randr w (configure_notify randr z w d)
unfolding configure_notify
configure_notify-IsConfigured randr z w d mode can shown is_timed =
    let d1 = named randr w d in
    if-elim (IsConfigured randr w) (asks_resize randr w d1.settings) _ _
      (λ asked.
        subst (λ (m : ℕ × ℕ). IsConfigured randr w (with_rate (rate_of w) (resize z m.0 m.1 d1)))
          (sym mode)
          (with_rate-IsConfigured randr w (restored z d1).settings (resize z w.width w.height d1)
            (resize-IsResized z w.width w.height d1 (can asked))))
      (λ unasked. (shown, root_name-IsTimed randr w.name d.settings is_timed, unasked))
