-- ===== src/Access/Import.antt =====
-- loriePixmapFromFds of app/src/main/cpp/lorie/InitOutput.c: a pixmap from a descriptor of an X client,
-- or from a hardware buffer that is received over it.
use termux_x11_extra.Base.{
  ℕ, ◌+◌, ◌-◌, ◌/◌, ◌^◌, ◌≡◌, Bool, true, false, ◌&&◌, ◌||◌, [], ◌∷◌, ◌++◌, Option, none, some,
  ◌==◌, leb, if◌then◌else◌,
}
use termux_x11_extra.Base.Int.{ℤ, pos, is_zero}
use termux_x11_extra.Buffer.{
  LorieBuffer, Format, b8g8r8a8, r8g8b8x8, r8g8b8a8, other_format, Log, got, Resource,
  hardware_buffer,
}
use termux_x11_extra.Buffer.Create.{System, Made, wrap_file_descriptor, wrap_hardware_buffer}
use termux_x11_extra.Buffer.Balance.{acquired, released, owned_if_made}

-- The modifiers that the code knows; the last is that of DRM.
abbrev pub hardware_buffer_socket : ℕ
hardware_buffer_socket = 1255

abbrev pub flipped_socket : ℕ
flipped_socket = 1256

abbrev pub raw_descriptor : ℕ
raw_descriptor = 1274

abbrev pub invalid_modifier : ℕ
invalid_modifier = 2 ^ 56 - 1

-- The request of the client.
pub record ImportRequest : Type 0 where
  pub num_fds : ℕ
  pub fd : ℤ
  pub width : ℕ
  pub height : ℕ
  pub stride : ℕ
  pub offset : ℕ
  pub modifier : ℕ

-- What the calls return: CreatePixmap and its private record, fstat and S_ISSOCK, write,
-- AHardwareBuffer_recvHandleFromUnixSocket and the buffer that it gives.
pub record Peer : Type 0 where
  pub has_pixmap : Bool
  pub has_priv : Bool
  pub has_stat : Bool
  pub is_socket : Bool
  pub is_written : Bool
  pub ret : ℤ
  pub received : Option ℕ

-- The buffer of the new pixmap, none for NULL; `priv->flipped`; the static counter of buffer.c; and
-- what was acquired and given back.
pub record Import : Type 0 where
  pub buffer : Option LorieBuffer
  pub flipped : Bool
  pub counter : ℕ
  pub log : Log

abbrev pub import_failed : ℕ → Log → Import
import_failed counter log = record { buffer = none; flipped = false; counter = counter; log = log }

abbrev pub import_made : Bool → Log → Made → Import
import_made flipped log m = record {
  buffer = m.made;
  flipped = flipped;
  counter = m.counter;
  log = log ++ m.log;
}

abbrev pub is_known : ℕ → Bool
is_known modifier =
    modifier == raw_descriptor
    || (modifier == hardware_buffer_socket
        || (modifier == flipped_socket || modifier == invalid_modifier))

abbrev pub is_importable : Format → Bool
is_importable r8g8b8x8 = true
is_importable r8g8b8a8 = true
is_importable b8g8r8a8 = true
is_importable (other_format n) = false

-- The branch of a descriptor that can be mapped.
abbrev pub import_descriptor : System → ℕ → ImportRequest → Import
import_descriptor s counter q = import_made false [] (
    wrap_file_descriptor s counter (pos q.width) (pos (q.stride / 4)) (pos q.height) b8g8r8a8 q.fd
      q.offset)

-- From the received buffer on.
abbrev pub import_received : System → ℕ → Bool → Option ℕ → Import
import_received s counter flipped none = import_failed counter []
import_received s counter flipped (some h) =
    if is_importable (s.describe h).format
    then import_made flipped (got (hardware_buffer h) ∷ [])
        (wrap_hardware_buffer s counter (some h))
    else import_failed counter (got (hardware_buffer h) ∷ [])

-- The branch of a socket.
abbrev pub import_hardware : System → Peer → ℕ → ImportRequest → Import
import_hardware s x counter q =
    if x.has_stat && (x.is_socket && (x.is_written && is_zero x.ret))
    then import_received s counter (q.modifier == flipped_socket) x.received
    else import_failed counter []

-- loriePixmapFromFds
unfoldable pub pixmap_from_fds : System → Peer → ℕ → ImportRequest → Import
unfolding wrap_file_descriptor wrap_hardware_buffer
pixmap_from_fds s x counter q =
    if leb q.num_fds 1 && (is_known q.modifier && (x.has_pixmap && x.has_priv))
    then if q.modifier == invalid_modifier || q.modifier == raw_descriptor
      then import_descriptor s counter q
      else import_hardware s x counter q
    else import_failed counter []

-- What was acquired is held by the buffer or given back.
abbrev pub IsAccounted : Resource → Import → Type 0
IsAccounted r i = acquired r i.log ≡ released r i.log + owned_if_made r i.buffer
