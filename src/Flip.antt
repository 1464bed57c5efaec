-- ===== src/Flip.antt =====
-- The acceptance of a flip, loriePresentFlip of app/src/main/cpp/lorie/InitOutput.c: whether a pixmap
-- of a client may stand in for the root window without a copy.
pub mod Shared
mod Examples
use termux_x11_extra.Base.{
  ℕ, Bool, true, false, not, ◌&&◌, ◌||◌, List, [], Option, none, some, ◌==◌, if◌then◌else◌,
}
use termux_x11_extra.Base.Int.{ℤ}
use termux_x11_extra.Buffer.{
  BufferType, unknown, regular, file_descriptor, hardware, Format, b8g8r8a8, r8g8b8x8, LorieBuffer,
  Log, Locking, lock,
}
use termux_x11_extra.Buffer.Create.{System}
use termux_x11_extra.Buffer.Convert.{convert, is_regular}

-- LoriePixmapPriv, with the size of its pixmap.
pub record Pixmap : Type 0 where
  pub width : ℕ
  pub height : ℕ
  pub buffer : Option LorieBuffer
  pub locked : Option ℕ
  pub mem : Option ℕ
  pub imported : Bool

-- The part `root` of lorieScreenInfo, and whether the environment asks for flips.
pub record Screen : Type 0 where
  pub width : ℕ
  pub height : ℕ
  pub legacy_drawing : Bool
  pub flip : Bool
  pub force_flip : Bool

-- The result; the pixmap after the call; the buffer that is announced to the activity; what the
-- conversion did. The new stride that ModifyPixmapHeader is told is the buffer's.
pub record Flipped : Type 0 where
  pub accepted : Bool
  pub pixmap : Pixmap
  pub registered : Option LorieBuffer
  pub log : Log

abbrev pub refused : Pixmap → Log → Flipped
refused p log = record { accepted = false; pixmap = p; registered = none; log = log }

abbrev pub is_fd : BufferType → Bool
is_fd file_descriptor = true
is_fd regular = false
is_fd hardware = false
is_fd unknown = false

abbrev pub is_hardware : BufferType → Bool
is_hardware hardware = true
is_hardware regular = false
is_hardware file_descriptor = false
is_hardware unknown = false

-- From the last test of the type on.
abbrev pub register : Pixmap → LorieBuffer → Log → Flipped
register p b log =
    if not (is_fd b.desc.type) && not (is_hardware b.desc.type)
    then refused p log
    else record { accepted = true; pixmap = p; registered = some b; log = log }

-- The lock after a conversion that changed the type.
abbrev pub lock_converted : Locking → Pixmap → LorieBuffer × Log → Flipped
lock_converted l p (b, log) =
    if is_regular b.desc.type
    then register (record p { buffer = some b }) b log
    else (let (b', result, out) = lock l b in
        register (record p { buffer = some b'; locked = out }) b' log)

abbrev pub target_type : Screen → BufferType
target_type s = if s.legacy_drawing then file_descriptor else hardware

abbrev pub target_format : Screen → Format
target_format s = if s.flip then r8g8b8x8 else b8g8r8a8

-- From the test for an imported descriptor on.
abbrev pub flip_buffer : System → Locking → Screen → Pixmap → LorieBuffer → Flipped
flip_buffer sys l s p b =
    if is_fd b.desc.type && (p.imported && not s.force_flip)
    then refused p []
    else if is_regular b.desc.type
    then lock_converted l p (convert sys b (target_type s) (target_format s))
    else register p b []

abbrev pub is_null : Option ℕ → Bool
is_null none = true
is_null (some a) = false

-- The first test, but for `!priv || !priv->buffer`: both comparisons are with the root's width.
abbrev pub is_other_size : Screen → Pixmap → Bool
is_other_size s p = not (s.width == p.width) || not (s.width == p.height)

abbrev pub flip_pixmap : System → Locking → Screen → Pixmap → Option LorieBuffer → Flipped
flip_pixmap sys l s p none = refused p []
flip_pixmap sys l s p (some b) =
    if not (is_null p.mem) || is_other_size s p then refused p [] else flip_buffer sys l s p b

-- loriePresentFlip of a pixmap with a private record.
unfoldable pub present_flip : System → Locking → Screen → Pixmap → Flipped
unfolding convert lock
present_flip sys l s p = flip_pixmap sys l s p p.buffer
