-- ===== src/Channel/Pointer.antt =====
-- The pointer events of handleLorieEvents, of app/src/main/cpp/lorie/cmdentrypoint.c: the branches of
-- EVENT_STYLUS and EVENT_MOUSE. `mask` is the variable of the function, which its branches share.
use termux_x11_extra.Base.{
  ℕ, zero, suc, ◌+◌, ◌/◌, bit_and, bit_xor, Bool, true, false, ◌||◌, List, [], ◌∷◌, ◌++◌, Option,
  none, some, ◌==◌, leb, if◌then◌else◌,
}
use termux_x11_extra.Keyboard.{and_not}
use termux_x11_extra.Channel.{Floats, ScreenSize}

pub data PointerDevice : Type 0 where
  mouse pen eraser : PointerDevice

-- The flags that are given to QueuePointerEvents.
pub data Flags : Type 0 where
  relative : Flags  -- POINTER_RELATIVE
  accelerated : Flags  -- with POINTER_ACCELERATE
  desktop : Bool → Flags  -- POINTER_ABSOLUTE | POINTER_DESKTOP, and POINTER_NORAW
  screen : Flags  -- POINTER_ABSOLUTE | POINTER_SCREEN | POINTER_NORAW

-- A ValuatorMask: the axes that are set.
abbrev pub Mask : Type 0 → Type 0
Mask V = ℕ → Option V

-- What QueuePointerEvents is called with.
pub data PointerEvent (V : Type 0) : Type 0 where
  motion : PointerDevice → Flags → Mask V → PointerEvent V
  button : PointerDevice → Bool → ℕ → PointerEvent V

pub record StylusEvent (V : Type 0) : Type 0 where
  pub x : V
  pub y : V
  pub pressure : V
  pub tilt_x : V
  pub tilt_y : V
  pub orientation : V
  pub buttons : ℕ
  pub is_eraser : Bool
  pub is_mouse : Bool

pub record MouseEvent (V : Type 0) : Type 0 where
  pub x : V
  pub y : V
  pub detail : ℕ
  pub down : Bool
  pub is_relative : Bool

-- `buttons_prev`, `mask`, and whether loriePen and lorieEraser are there.
pub record Pointers (V : Type 0) : Type 0 where
  pub buttons_prev : ℕ
  pub mask : Mask V
  pub has_stylus : Bool

abbrev pub set_axis : {V : Type 0} → ℕ → V → Mask V → Mask V
set_axis axis v mask i = if i == axis then some v else mask i

abbrev pub no_axes : {V : Type 0} → Mask V
no_axes i = none

-- One round of the loop over the buttons.
abbrev pub button_event : {V : Type 0} → PointerDevice → ℕ → ℕ → ℕ → List (PointerEvent V)
button_event device i released pressed =
    (if bit_and released 1 == 0 then [] else button device false (i + 1) ∷ [])
    ++ (if bit_and pressed 1 == 0 then [] else button device true (i + 1) ∷ [])

-- The loop, with `n` rounds left.
unfoldable pub button_events : {V : Type 0} → PointerDevice → ℕ → ℕ → ℕ → ℕ → List (PointerEvent V)
button_events device zero i released pressed = []
button_events device (suc n) i released pressed =
    button_event device i released pressed
    ++ button_events device n (i + 1) (released / 2) (pressed / 2)

abbrev pub device_of : {V : Type 0} → StylusEvent V → PointerDevice
device_of e = if e.is_mouse then mouse else if e.is_eraser then eraser else pen

module _ {V : Type 0} (fp : Floats V) (size : ScreenSize) where
  abbrev pub stylus_mask : StylusEvent V → Mask V → Mask V
  stylus_mask e mask =
      let at =
        set_axis 1 (fp.clamped e.y size.height) (set_axis 0 (fp.clamped e.x size.width) mask) in
      if e.is_mouse
      then at
      else set_axis 5 e.orientation
          (set_axis 4 e.tilt_y (set_axis 3 e.tilt_x (set_axis 2 e.pressure at)))

  -- EVENT_STYLUS
  unfoldable pub handle_stylus : StylusEvent V → Pointers V → Pointers V × List (PointerEvent V)
  unfolding button_events
  handle_stylus e p =
      let device = device_of e in
      let mask = stylus_mask e p.mask in
      let diff = bit_xor p.buttons_prev e.buttons in
      if e.is_mouse || p.has_stylus
      then (
        record p { buttons_prev = e.buttons; mask = mask },
        motion device (desktop e.is_mouse) mask
            ∷ button_events device 3 0 (and_not diff e.buttons) (bit_and diff e.buttons),
      )
      else (p, [])

  -- BUTTON_UNDEFINED
  abbrev pub move_mouse : MouseEvent V → Pointers V → Pointers V × List (PointerEvent V)
  move_mouse e p =
      let x = if e.is_relative then e.x else fp.clamped e.x size.width in
      let y = if e.is_relative then e.y else fp.clamped e.y size.height in
      let mask = set_axis 1 y (set_axis 0 x p.mask) in
      (
        record p { mask = mask },
        motion mouse (if e.is_relative then accelerated else screen) mask ∷ [],
      )

  -- One axis of BUTTON_SCROLL.
  abbrev pub scroll_axis : ℕ → V → Pointers V → Pointers V × List (PointerEvent V)
  scroll_axis axis v p =
      let mask = set_axis axis (fp.notch v) no_axes in
      if fp.is_zero v then (p, []) else (record p { mask = mask }, motion mouse relative mask ∷ [])

  abbrev pub scroll_mouse : MouseEvent V → Pointers V → Pointers V × List (PointerEvent V)
  scroll_mouse e p =
      let (p', first) = scroll_axis 2 e.x p in
      let (p'', second) = scroll_axis 3 e.y p' in (p'', first ++ second)

  -- EVENT_MOUSE
  unfoldable pub handle_mouse : MouseEvent V → Pointers V → Pointers V × List (PointerEvent V)
  handle_mouse e p =
      if e.detail == 0
      then move_mouse e p
      else if leb e.detail 3
      then (p, button mouse e.down e.detail ∷ [])
      else if e.detail == 4
      then scroll_mouse e p
      else (p, [])
