-- ===== src/Channel.antt =====
-- The server's end of the connection to the activity, app/src/main/cpp/lorie/cmdentrypoint.c: the
-- events of the activity and what they make the server do, and the buffers that the activity knows.
-- A double is a number of the type V, and `Floats` has C's arithmetic and conversions on it.
pub mod Touch
pub mod Link
pub mod Pointer
pub mod Dispatch
pub mod Typing
pub mod Buttons
pub mod Examples
use termux_x11_extra.Base.{ℕ, Bool, Option}

pub record Floats (V : Type 0) : Type 0 where
  pub scaled : ℕ → ℕ → V  -- x * 0xFFFF / width
  pub is_same : V → V → Bool
  pub is_zero : V → Bool
  pub of_number : ℕ → V
  pub clamped : V → ℕ → V  -- max(min(x, width), 0)
  pub notch : V → V  -- x / 120

-- pScreenPtr
pub record ScreenSize : Type 0 where
  pub width : ℕ
  pub height : ℕ
