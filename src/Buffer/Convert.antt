-- ===== src/Buffer/Convert.antt =====
-- LorieBuffer_convert of app/src/main/cpp/lorie/buffer.c.
use termux_x11_extra.Base.{
  ℕ, Bool, true, false, not, ◌||◌, [], ◌∷◌, ◌++◌, Option, none, some, if◌then◌else◌,
}
use termux_x11_extra.Base.Int.{ℤ, is_neg, is_zero}
use termux_x11_extra.Buffer.{
  BufferType, regular, file_descriptor, hardware, unknown, Format, LorieBuffer, mapping, memory,
  hardware_buffer, got, copied, Log, gave_fd, gave_at, is_drawable,
}
use termux_x11_extra.Buffer.Create.{System, align_to_page, create_region, image_size}

-- The new content of a buffer whose pixels now stand in a shared mapping.
abbrev pub into_region : LorieBuffer → Format → ℤ → ℕ → ℕ → LorieBuffer
into_region b format fd size p = record b {
  desc = record b.desc { type = file_descriptor; format = format; pixels = some p };
  fd = fd;
  size = size;
  offset = 0;
  locked_data = none;
  locked = false;
}

abbrev pub into_hardware : LorieBuffer → Format → ℤ → ℕ → LorieBuffer
into_hardware b format stride h = record b {
  desc = record b.desc {
    type = hardware;
    format = format;
    stride = stride;
    buffer = some h;
    pixels = none;
  };
  locked_data = none;
  locked = false;
}

-- The branch of file descriptors, after createRegion.
abbrev pub convert_region : System → LorieBuffer → Format → ℕ → ℤ × Log → LorieBuffer × Log
convert_region s b format size (fd, log) = if is_neg fd then (b, log) else elim (s.mmap fd size 0) [
  | none ↦ (b, log ++ gave_fd fd)
  | some p ↦ (
    into_region b format fd size p,
    log ++ (got (mapping p) ∷ copied b.desc.pixels p ∷ gave_at memory b.desc.pixels),
  )
]

-- The branch of hardware buffers. A failed lock leaves out the copy alone.
abbrev pub convert_hardware : System → LorieBuffer → Format → Option ℕ → LorieBuffer × Log
convert_hardware s b format none = (b, [])
convert_hardware s b format (some h) =
    let copy = if is_zero s.lock_status then copied b.desc.pixels s.lock_address ∷ [] else [] in
    (
      into_hardware b format (s.describe h).stride h,
      got (hardware_buffer h) ∷ (copy ++ gave_at memory b.desc.pixels),
    )

abbrev pub is_regular : BufferType → Bool
is_regular regular = true
is_regular file_descriptor = false
is_regular hardware = false
is_regular unknown = false

abbrev pub convert_to : System → LorieBuffer → BufferType → Format → LorieBuffer × Log
convert_to s b file_descriptor format =
    let size = align_to_page s.page_size (image_size b.desc.stride b.desc.height) in
    convert_region s b format size (create_region s size)
convert_to s b hardware format =
    convert_hardware s b format (s.new_hardware b.desc.width b.desc.height format)
convert_to s b regular format = (b, [])
convert_to s b unknown format = (b, [])

-- LorieBuffer_convert of a buffer that is not NULL.
unfoldable pub convert : System → LorieBuffer → BufferType → Format → LorieBuffer × Log
unfolding align_to_page create_region
convert s b type format =
    if not (is_regular b.desc.type) || not (is_drawable format)
    then (b, [])
    else convert_to s b type format
