-- ===== src/Activity.antt =====
-- The activity's end of the connection, app/src/main/cpp/lorie/activity.c, and the structs of lorieEvent
-- in app/src/main/cpp/lorie/lorie.h.
-- The socket is the bytes that stand in it. How a struct lies in memory is up to the compiler: `Abi`.
pub mod Send
pub mod Serve
pub mod Transfer
pub mod Whole
pub mod Arrival
pub mod Typed
pub mod Keys
pub mod Receive
pub mod Overread
pub mod Known
pub mod Ends
pub mod Mirror
pub mod Surface
pub mod Examples
mod Messages
mod Typing
use termux_x11_extra.Base.{
  ℕ, ◌-◌, ◌%◌, ◌^◌, ◌<◌, ◌≤◌, ◌≡◌, Bool, List, [], ◌∷◌, ltb, if◌then◌else◌, length,
}
use termux_x11_extra.Base.Int.{ℤ, pos, negsuc}
use termux_x11_extra.Text.{Bytes}
use termux_x11_extra.Channel.Touch.{TouchEvent}
use termux_x11_extra.Channel.Pointer.{MouseEvent}

-- The conversion of an int to an unsigned integer of w bits.
abbrev pub to_unsigned : ℕ → ℤ → ℕ
to_unsigned w (pos n) = n % 2 ^ w
to_unsigned w (negsuc n) = 2 ^ w - 1 - n % 2 ^ w

-- The signed integer of w bits that has the bits u.
abbrev pub signed_of : ℕ → ℕ → ℤ
signed_of w u = if ltb u (2 ^ (w - 1)) then pos u else negsuc (2 ^ w - 1 - u)

-- The conversion of an int to a signed integer of w bits.
abbrev pub to_signed : ℕ → ℤ → ℤ
to_signed w z = signed_of w (to_unsigned w z)

-- The struct of a stylus event.
pub record StylusStruct (V : Type 0) : Type 0 where
  pub x : V
  pub y : V
  pub pressure : ℕ
  pub tilt_x : ℤ
  pub tilt_y : ℤ
  pub orientation : ℤ
  pub buttons : ℕ
  pub is_eraser : Bool
  pub is_mouse : Bool

-- lorieEvent, as the activity fills it.
pub data EventHeader (V : Type 0) : Type 0 where
  screen_size_head : ℕ → ℕ → ℕ → ℕ → EventHeader V  -- width, height, framerate, name_size
  touch_head : TouchEvent → EventHeader V
  mouse_head : MouseEvent V → EventHeader V
  key_head : ℕ → Bool → EventHeader V
  stylus_head : StylusStruct V → EventHeader V
  stylus_enable_head : Bool → EventHeader V
  unicode_head : ℕ → EventHeader V
  clipboard_enable_head : Bool → EventHeader V
  clipboard_announce_head : EventHeader V
  clipboard_send_head : ℕ → EventHeader V
  gamepad_head : ℕ → Bool → ℤ → ℤ → ℕ → EventHeader V  -- button, pressed, axisX, axisY, axisID

-- sizeof(lorieEvent), the bytes of an event and the event that the bytes make; the conversions of an
-- int to a double, and of an axis times a number to an int. `arrived n` is how many of the n bytes behind a
-- struct have come when they are read; a read of at most `room` bytes finds them all.
pub record Abi (V : Type 0) : Type 0 where
  pub size : ℕ
  pub encode : EventHeader V → Bytes
  pub decode : Bytes → EventHeader V
  pub to_double : ℤ → V
  pub truncated : V → ℕ → ℤ
  pub arrived : ℕ → ℕ
  pub room : ℕ

-- The fields of the integers are in the range of their types.
abbrev pub IsStylusInRange : {V : Type 0} → StylusStruct V → Type 0
IsStylusInRange s =
    (s.pressure < 2 ^ 16)
    × (to_signed 8 s.tilt_x ≡ s.tilt_x)
    × (to_signed 8 s.tilt_y ≡ s.tilt_y)
    × (to_signed 16 s.orientation ≡ s.orientation)
    × (s.buttons < 2 ^ 8)

abbrev pub IsInRange : {V : Type 0} → EventHeader V → Type 0
IsInRange (screen_size_head width height framerate name_size) =
    (width < 2 ^ 16) × (height < 2 ^ 16) × (framerate < 2 ^ 16) × (name_size < 2 ^ 64)
IsInRange (touch_head e) = (e.type < 2 ^ 16) × (e.id < 2 ^ 16) × (e.x < 2 ^ 16) × (e.y < 2 ^ 16)
IsInRange (mouse_head e) = e.detail < 2 ^ 8
IsInRange (key_head key down) = key < 2 ^ 16
IsInRange (stylus_head s) = IsStylusInRange s
IsInRange (stylus_enable_head enable) = Unit
IsInRange (unicode_head code) = code < 2 ^ 31
IsInRange (clipboard_enable_head enable) = Unit
IsInRange clipboard_announce_head = Unit
IsInRange (clipboard_send_head count) = count < 2 ^ 32
IsInRange (gamepad_head button pressed x y axis) =
    (button < 2 ^ 8) × (to_signed 16 x ≡ x) × (to_signed 16 y ≡ y) × (axis < 2 ^ 8)

-- What a compiler promises: a struct has a size that is not 0, and reading the bytes that were
-- written gives the fields. And of the socket, that what fits its buffer has come as a whole.
abbrev pub IsAbi : {V : Type 0} → Abi V → Type 0
IsAbi {V} abi =
    (0 < abi.size)
    × ((h : EventHeader V) → length (abi.encode h) ≡ abi.size)
    × ((h : EventHeader V) → IsInRange h → abi.decode (abi.encode h) ≡ h)
    × ((n : ℕ) → n ≤ abi.room → abi.arrived n ≡ n)
