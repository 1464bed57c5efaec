-- ===== src/Buffer.antt =====
-- The shareable pixel buffers of app/src/main/cpp/lorie/buffer.c and buffer.h: the data, the
-- reference count and the lock. Creation, conversion and transfer stand in the children Create,
-- Convert and Receive.
-- The calls of the kernel, of Android and of GL return what an argument says. What a function
-- acquires and gives back by such calls is its log.
pub mod Create
pub mod Convert
pub mod Receive
pub mod Balance
pub mod Ownership
pub mod Lifetime
pub mod Locks
pub mod Sharing
mod Examples
use termux_x11_extra.Base.{
  ℕ, ◌+◌, ◌%◌, Bool, true, false, not, ◌&&◌, ◌||◌, List, [], ◌∷◌, ◌++◌, Option, none, some, ◌==◌,
  if◌then◌else◌,
}
use termux_x11_extra.Base.Int.{ℤ, pos, negsuc, is_neg, is_pos}

-- The enum of buffer.h. A value outside it acts as `unknown` does.
pub data BufferType : Type 0 where
  unknown regular file_descriptor hardware : BufferType

-- The pixel formats that the code compares with: 5, and two of Android's constants.
pub data Format : Type 0 where
  b8g8r8a8 r8g8b8x8 r8g8b8a8 : Format
  other_format : ℕ → Format

-- LorieBuffer_Desc. A pointer is an address, `none` for NULL.
pub record Desc : Type 0 where
  pub width : ℤ
  pub height : ℤ
  pub stride : ℤ
  pub format : Format
  pub type : BufferType
  pub id : ℕ
  pub buffer : Option ℕ
  pub pixels : Option ℕ  -- `data`

-- struct LorieBuffer, with the address of the struct. The link stands in the lists that hold it.
pub record LorieBuffer : Type 0 where
  pub address : ℕ
  pub refcount : ℕ  -- int16_t, by its bit pattern
  pub desc : Desc
  pub locked : Bool
  pub locked_data : Option ℕ
  pub fd : ℤ
  pub size : ℕ
  pub offset : ℕ
  pub texture : ℕ  -- `id`
  pub image : Option ℕ

-- What the process holds and must give back.
pub data Resource : Type 0 where
  descriptor : ℕ → Resource
  mapping : ℕ → Resource
  memory : ℕ → Resource
  hardware_buffer : ℕ → Resource

pub data Effect : Type 0 where
  got : Resource → Effect
  gave : Resource → Effect
  deleted_texture : ℕ → Effect
  destroyed_image : ℕ → Effect
  copied : Option ℕ → ℕ → Effect

abbrev pub Log : Type 0
Log = List Effect

-- A descriptor that a call returned: a negative number is an error and no resource.
abbrev pub got_fd : ℤ → Log
got_fd (pos n) = got (descriptor n) ∷ []
got_fd (negsuc n) = []

-- close(fd)
abbrev pub gave_fd : ℤ → Log
gave_fd (pos n) = gave (descriptor n) ∷ []
gave_fd (negsuc n) = []

abbrev pub gave_at : (ℕ → Resource) → Option ℕ → Log
gave_at r none = []
gave_at r (some a) = gave (r a) ∷ []

-- The `switch` on the type in __LorieBuffer_free, which also stands in `allocate`.
abbrev pub gave_content : BufferType → LorieBuffer → Log
gave_content regular b = gave_at memory b.desc.pixels
gave_content file_descriptor b = gave_at mapping b.desc.pixels ++ gave_fd b.fd
gave_content hardware b = gave_at hardware_buffer b.desc.buffer
gave_content unknown b = []

abbrev pub gave_image : Bool → Option ℕ → Log
gave_image display none = []
gave_image display (some i) = if display then destroyed_image i ∷ [] else []

-- __LorieBuffer_free; the Booleans say whether EGL has a current context and a current display. The
-- removal from the list is made by the owner of the list.
unfoldable pub free : Bool → Bool → LorieBuffer → Log
free context display b =
    (if context then deleted_texture b.texture ∷ [] else [])
    ++ (gave_image display b.image ++ (gave_content b.desc.type b ++ gave (memory b.address) ∷ []))

-- LorieBuffer_acquire
unfoldable pub acquire : LorieBuffer → LorieBuffer
acquire b = record b { refcount = (b.refcount + 1) % 65536 }

-- LorieBuffer_release: `none` once the buffer is freed.
unfoldable pub release : Bool → Bool → LorieBuffer → Option LorieBuffer × Log
unfolding free
release context display b =
    if b.refcount == 1
    then (none, free context display b)
    else (some (record b { refcount = (b.refcount + 65535) % 65536 }), [])

-- What LorieBuffer_lock and LorieBuffer_unlock return; `status n` is the value of Android's call.
pub data Result : Type 0 where
  success enodev eexist enoent : Result
  status : ℤ → Result

-- What AHardwareBuffer_lock returns, and what it leaves in `lockedData`.
pub record Locking : Type 0 where
  pub ret : ℤ
  pub address : Option ℕ

abbrev pub lock_content : Locking → BufferType → LorieBuffer → LorieBuffer × Result
lock_content l regular b = (record b { locked_data = b.desc.pixels }, success)
lock_content l file_descriptor b = (record b { locked_data = b.desc.pixels }, success)
lock_content l hardware b = (record b { locked_data = l.address }, status l.ret)
lock_content l unknown b = (b, success)

-- LorieBuffer_lock of a buffer that is not NULL. The last part is what `*out` is set to.
unfoldable pub lock : Locking → LorieBuffer → LorieBuffer × Result × Option ℕ
lock l b =
    if b.locked
    then (b, eexist, b.locked_data)
    else let (b', ret) = lock_content l b.desc.type b in
      (record b' { locked = true }, ret, b'.locked_data)

abbrev pub unlock_result : ℤ → BufferType → Result
unlock_result ret hardware = status ret
unlock_result ret regular = success
unlock_result ret file_descriptor = success
unlock_result ret unknown = success

-- LorieBuffer_unlock; the number is what AHardwareBuffer_unlock returns.
unfoldable pub unlock : ℤ → LorieBuffer → LorieBuffer × Result
unlock ret b =
    if b.locked
    then (record b { locked_data = none; locked = false }, unlock_result ret b.desc.type)
    else (b, enoent)

-- The formats that a buffer of the program's own may have.
abbrev pub is_drawable : Format → Bool
is_drawable b8g8r8a8 = true
is_drawable r8g8b8x8 = true
is_drawable r8g8b8a8 = false
is_drawable (other_format n) = false

abbrev pub is_hardware : BufferType → Bool
is_hardware hardware = true
is_hardware regular = false
is_hardware file_descriptor = false
is_hardware unknown = false

-- LorieBuffer_isRgba
abbrev pub is_rgba : Format → Bool
is_rgba b8g8r8a8 = false
is_rgba r8g8b8x8 = true
is_rgba r8g8b8a8 = true
is_rgba (other_format n) = true
