-- ===== src/Buffer/Create.antt =====
-- Creation of buffers: alignToPage, LorieBuffer_createRegion, allocate, LorieBuffer_allocate and the
-- two wrap functions of app/src/main/cpp/lorie/buffer.c.
use termux_x11_extra.Base.{
  ℕ, ◌+◌, ◌-◌, ◌%◌, ◌^◌, bit_and, Bool, true, false, not, ◌&&◌, [], ◌∷◌, ◌++◌, Option, none, some,
  if◌then◌else◌,
}
use termux_x11_extra.Base.Int.{ℤ, pos, negsuc, is_neg, is_pos, is_zero, ◌*ℤ◌, to_size}
use termux_x11_extra.Buffer.{
  BufferType, regular, file_descriptor, hardware, unknown, Format, Desc, LorieBuffer, mapping,
  memory, hardware_buffer, got, Log, got_fd, gave_fd, gave_content, is_drawable, is_hardware,
  other_format,
}

-- What AHardwareBuffer_describe tells.
pub record Description : Type 0 where
  pub width : ℤ
  pub height : ℤ
  pub stride : ℤ
  pub format : Format

-- What the calls of the system return, each from the arguments that the code computes. `none` stands
-- for NULL, for MAP_FAILED and for a hardware buffer that could not be had.
pub record System : Type 0 where
  pub page_size : ℕ
  pub shared_memory : ℕ → ℤ  -- ASharedMemory_create
  pub memfd : ℤ
  pub ashmem : ℤ  -- open("/dev/ashmem")
  pub set_name : ℤ
  pub set_size : ℕ → ℤ
  pub dup : ℤ → ℤ
  pub mmap : ℤ → ℕ → ℕ → Option ℕ  -- of the descriptor, the size and the offset
  pub pixels : ℕ → Option ℕ  -- calloc for the pixels
  pub block : Option ℕ  -- calloc for the struct
  pub new_hardware : ℤ → ℤ → Format → Option ℕ  -- of the width, the height and the format
  pub describe : ℕ → Description
  pub lock_status : ℤ  -- AHardwareBuffer_lock
  pub lock_address : ℕ  -- where it maps the pixels

-- alignToPage, on size_t.
unfoldable pub align_to_page : ℕ → ℕ → ℕ
align_to_page page_size size =
    bit_and ((size + page_size + (2 ^ 64 - 1)) % 2 ^ 64) (2 ^ 64 - 1 - (page_size - 1))

-- From `open` on, with the label `error`.
abbrev pub open_ashmem : System → ℕ → ℤ × Log
open_ashmem s size =
    if is_neg s.ashmem
    then (s.ashmem, [])
    else if is_neg s.set_name
    then (s.set_name, got_fd s.ashmem ++ gave_fd s.ashmem)
    else if is_neg (s.set_size size)
    then (s.set_size size, got_fd s.ashmem ++ gave_fd s.ashmem)
    else (s.ashmem, got_fd s.ashmem)

-- LorieBuffer_createRegion. Both tests `if (fd)` are for a number that is not 0.
unfoldable pub create_region : System → ℕ → ℤ × Log
create_region s size =
    if not (is_zero (s.shared_memory size))
    then (s.shared_memory size, got_fd (s.shared_memory size))
    else if not (is_zero s.memfd)
    then (s.memfd, got_fd (s.shared_memory size) ++ got_fd s.memfd)
    else let (fd, log) = open_ashmem s size in
      (fd, got_fd (s.shared_memory size) ++ (got_fd s.memfd ++ log))

-- stride * height * sizeof(uint32_t); `int` is taken not to overflow.
abbrev pub image_size : ℤ → ℤ → ℕ
image_size stride height = to_size (stride *ℤ height *ℤ pos 4)

-- The end of `allocate`: the struct, or what it undoes without one.
unfoldable pub finish : System → LorieBuffer → Option LorieBuffer × Log
finish s b = elim s.block [
  | none ↦ (none, gave_content b.desc.type b)
  | some a ↦ (some (record b { address = a }), got (memory a) ∷ [])
]

abbrev pub with_pixels : Option ℕ → LorieBuffer → LorieBuffer
with_pixels p b = record b { desc = record b.desc { pixels = p } }

abbrev pub described : Description → Desc → Desc
described d desc = record desc {
  width = d.width;
  height = d.height;
  stride = d.stride;
  format = d.format;
}

-- The switch on the type in `allocate`, and what follows it.
unfoldable pub allocate_content : System → BufferType → LorieBuffer → Option LorieBuffer × Log
unfolding finish
allocate_content s regular b = elim (s.pixels (image_size b.desc.stride b.desc.height)) [
  | none ↦ (none, [])
  | some p ↦ let (made, log) = finish s (with_pixels (some p) b) in (made, got (memory p) ∷ log)
]
allocate_content s file_descriptor b =
    if is_neg b.fd then (none, []) else elim (s.mmap b.fd b.size b.offset) [
      | none ↦ (none, gave_fd b.fd)
      | some p ↦
          let (made, log) = finish s (with_pixels (some p) b) in (made, got (mapping p) ∷ log)
    ]
allocate_content s hardware b = elim b.desc.buffer [
  | none ↦ (none, [])
  | some h ↦ finish s (record b { desc = described (s.describe h) b.desc })
]
allocate_content s unknown b = (none, [])

-- The static counter `id`, the buffer or NULL, and the log.
pub record Made : Type 0 where
  pub counter : ℕ
  pub made : Option LorieBuffer
  pub log : Log

-- The arguments of `allocate`, in the order of the source.
pub record Request : Type 0 where
  pub width : ℤ
  pub stride : ℤ
  pub height : ℤ
  pub format : Format
  pub type : BufferType
  pub buf : Option ℕ
  pub fd : ℤ
  pub size : ℕ
  pub offset : ℕ
  pub take_fd : Bool

abbrev pub acceptable : Request → Bool
acceptable q = is_drawable q.format && (is_pos q.width && is_pos q.height)

-- The initial value of `b`, with the reference that is counted below it.
abbrev pub initial : System → ℕ → Request → LorieBuffer
initial s counter q = record {
  address = 0;
  refcount = 1;
  desc = record {
    width = q.width;
    height = q.height;
    stride = q.stride;
    format = q.format;
    type = q.type;
    id = counter;
    buffer = q.buf;
    pixels = none;
  };
  locked = false;
  locked_data = none;
  fd = if q.take_fd then q.fd else s.dup q.fd;
  size = q.size;
  offset = q.offset;
  texture = 0;
  image = none;
}

abbrev pub opened : System → Request → Log
opened s q = if q.take_fd then [] else got_fd (s.dup q.fd)

unfoldable pub allocate : System → ℕ → Request → Made
unfolding allocate_content
allocate s counter q =
    let (made, log) =
      if not (is_hardware q.type) && not (acceptable q)
      then (none, [])
      else allocate_content s q.type (initial s counter q) in
    record { counter = (counter + 1) % 2 ^ 64; made = made; log = opened s q ++ log }

abbrev pub request_own : ℤ → ℤ → Format → BufferType → Request
request_own width height format type = record {
  width = width;
  stride = width;
  height = height;
  format = format;
  type = type;
  buf = none;
  fd = negsuc 0;
  size = 0;
  offset = 0;
  take_fd = true;
}

-- The two cases of LorieBuffer_allocate that ask the system for something first.
abbrev pub allocate_region : System → ℕ → ℤ × Log → ℕ → Request → Made
allocate_region s counter (fd, log) size q =
    if is_neg fd
    then record { counter = counter; made = none; log = log }
    else let r = allocate s counter (record q { fd = fd; size = size }) in
      record r { log = log ++ r.log }

abbrev pub allocate_hardware : System → ℕ → Option ℕ → Request → Made
allocate_hardware s counter none q = allocate s counter q
allocate_hardware s counter (some h) q =
    let r = allocate s counter (record q { buf = some h }) in
    record r { log = got (hardware_buffer h) ∷ r.log }

-- LorieBuffer_allocate
unfoldable pub allocate_own : System → ℕ → ℤ → ℤ → Format → BufferType → Made
unfolding create_region allocate
allocate_own s counter width height format file_descriptor =
    let size = align_to_page s.page_size (image_size width height) in
    allocate_region s counter (create_region s size) size
      (request_own width height format file_descriptor)
allocate_own s counter width height format hardware =
    allocate_hardware s counter (s.new_hardware width height format)
      (request_own width height format hardware)
allocate_own s counter width height format regular =
    allocate s counter (request_own width height format regular)
allocate_own s counter width height format unknown =
    allocate s counter (request_own width height format unknown)

abbrev pub request_wrap : ℤ → ℤ → ℤ → Format → ℤ → ℕ → Request
request_wrap width stride height format fd offset = record {
  width = width;
  stride = stride;
  height = height;
  format = format;
  type = file_descriptor;
  buf = none;
  fd = fd;
  size = image_size stride height;
  offset = offset;
  take_fd = false;
}

-- LorieBuffer_wrapFileDescriptor
unfoldable pub wrap_file_descriptor : System → ℕ → ℤ → ℤ → ℤ → Format → ℤ → ℕ → Made
unfolding allocate
wrap_file_descriptor s counter width stride height format fd offset =
    allocate s counter (request_wrap width stride height format fd offset)

-- The format 0 is none of the named ones.
abbrev pub request_hardware : Option ℕ → Request
request_hardware buffer = record {
  width = pos 0;
  stride = pos 0;
  height = pos 0;
  format = other_format 0;
  type = hardware;
  buf = buffer;
  fd = negsuc 0;
  size = 0;
  offset = 0;
  take_fd = false;
}

-- LorieBuffer_wrapAHardwareBuffer
unfoldable pub wrap_hardware_buffer : System → ℕ → Option ℕ → Made
unfolding allocate
wrap_hardware_buffer s counter buffer = allocate s counter (request_hardware buffer)
