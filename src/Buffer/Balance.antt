-- ===== src/Buffer/Balance.antt =====
-- Every resource that creation, conversion and release touch is held by a buffer or given back.
use termux_x11_extra.Base.{
  ℕ, ◌+◌, ◌≡◌, ◌&&◌, not, refl, sym, inl, inr, Option-cases, Bool, true, false, [], ◌∷◌, ◌++◌,
  Option, none, some, arith, ◌==◌, if◌then◌else◌, count, count-append,
}
use termux_x11_extra.Base.Int.{ℤ, pos, negsuc, is_zero}
use termux_x11_extra.Buffer.{
  BufferType, regular, file_descriptor, hardware, unknown, LorieBuffer, Resource, descriptor,
  mapping, memory, hardware_buffer, Effect, got, gave, deleted_texture, destroyed_image, copied,
  Log, got_fd, gave_fd, gave_at, gave_content, gave_image, free,
}
use termux_x11_extra.Buffer.Create.{
  System, create_region, finish, image_size, with_pixels, described, allocate_content, acceptable,
  opened, initial, Request, allocate,
}

abbrev pub same : Resource → Resource → Bool
same (descriptor a) (descriptor b) = a == b
same (mapping a) (mapping b) = a == b
same (memory a) (memory b) = a == b
same (hardware_buffer a) (hardware_buffer b) = a == b
same _ _ = false

abbrev pub is_got : Resource → Effect → Bool
is_got r (got s) = same r s
is_got r (gave s) = false
is_got r (deleted_texture n) = false
is_got r (destroyed_image n) = false
is_got r (copied a b) = false

abbrev pub is_gave : Resource → Effect → Bool
is_gave r (got s) = false
is_gave r (gave s) = same r s
is_gave r (deleted_texture n) = false
is_gave r (destroyed_image n) = false
is_gave r (copied a b) = false

-- How often a log acquires and gives back the resource.
abbrev pub acquired : Resource → Log → ℕ
acquired r = count (is_got r)

abbrev pub released : Resource → Log → ℕ
released r = count (is_gave r)

abbrev pub one : Bool → ℕ
one b = if b then 1 else 0

abbrev pub at_fd : Resource → ℤ → ℕ
at_fd r (pos n) = one (same r (descriptor n))
at_fd r (negsuc n) = 0

abbrev pub at_address : Resource → (ℕ → Resource) → Option ℕ → ℕ
at_address r c none = 0
at_address r c (some a) = one (same r (c a))

-- What the content of a buffer holds, by its type.
abbrev pub content : Resource → BufferType → LorieBuffer → ℕ
content r regular b = at_address r memory b.desc.pixels
content r file_descriptor b = at_address r mapping b.desc.pixels + at_fd r b.fd
content r hardware b = at_address r hardware_buffer b.desc.buffer
content r unknown b = 0

abbrev pub owned : Resource → LorieBuffer → ℕ
owned r b = content r b.desc.type b + one (same r (memory b.address))

abbrev pub owned_if_made : Resource → Option LorieBuffer → ℕ
owned_if_made r none = 0
owned_if_made r (some b) = owned r b

pub acquired-append : (r : Resource) (l m : Log) → acquired r (l ++ m) ≡ acquired r l + acquired r m
acquired-append r l m = count-append (is_got r) l m

pub released-append : (r : Resource) (l m : Log) → released r (l ++ m) ≡ released r l + released r m
released-append r l m = count-append (is_gave r) l m

pub got_fd-count :
    (r : Resource) (fd : ℤ) → (acquired r (got_fd fd) ≡ at_fd r fd) × (released r (got_fd fd) ≡ 0)
got_fd-count r (pos n) = ground arith
got_fd-count r (negsuc n) = ground arith

pub gave_fd-count :
    (r : Resource) (fd : ℤ) → (acquired r (gave_fd fd) ≡ 0) × (released r (gave_fd fd) ≡ at_fd r fd)
gave_fd-count r (pos n) = ground arith
gave_fd-count r (negsuc n) = ground arith

pub gave_at-count :
    (r : Resource) (c : ℕ → Resource) (a : Option ℕ)
    → (acquired r (gave_at c a) ≡ 0) × (released r (gave_at c a) ≡ at_address r c a)
gave_at-count r c none = ground arith
gave_at-count r c (some a) = ground arith

gave_content-count :
    (r : Resource) (t : BufferType) (b : LorieBuffer)
    → (acquired r (gave_content t b) ≡ 0) × (released r (gave_content t b) ≡ content r t b)
gave_content-count r regular b = gave_at-count r memory b.desc.pixels
gave_content-count r file_descriptor b = omega (
  arith,
  acquired-append r (gave_at mapping b.desc.pixels) (gave_fd b.fd),
  released-append r (gave_at mapping b.desc.pixels) (gave_fd b.fd),
  gave_at-count r mapping b.desc.pixels,
  gave_fd-count r b.fd,
)
gave_content-count r hardware b = gave_at-count r hardware_buffer b.desc.buffer
gave_content-count r unknown b = ground arith

gave_image-count :
    (r : Resource) (display : Bool) (i : Option ℕ)
    → (acquired r (gave_image display i) ≡ 0) × (released r (gave_image display i) ≡ 0)
gave_image-count r display none = ground arith
gave_image-count r display (some i) = ground arith

-- Freeing a buffer gives back what the buffer holds and nothing else.
pub free-count :
    (r : Resource) (context display : Bool) (b : LorieBuffer)
    → (acquired r (free context display b) ≡ 0) × (released r (free context display b) ≡ owned r b)
unfolding free
free-count r context display b = ground (
  arith,
  acquired-append r (gave_image display b.image)
      (gave_content b.desc.type b ++ gave (memory b.address) ∷ []),
  released-append r (gave_image display b.image)
      (gave_content b.desc.type b ++ gave (memory b.address) ∷ []),
  acquired-append r (gave_content b.desc.type b) (gave (memory b.address) ∷ []),
  released-append r (gave_content b.desc.type b) (gave (memory b.address) ∷ []),
  gave_image-count r display b.image,
  gave_content-count r b.desc.type b,
)

finish-count :
    (r : Resource) (s : System) (t : BufferType) (b : LorieBuffer)
    → b.desc.type ≡ t
    → acquired r (finish s b).1 + content r t b
      ≡ released r (finish s b).1 + owned_if_made r (finish s b).0
unfolding finish
finish-count r s t b e = rw (sym e) (ground (arith, gave_content-count r b.desc.type b))

-- What a request brings with it.
abbrev pub brought : Resource → BufferType → LorieBuffer → ℕ
brought r regular b = 0
brought r file_descriptor b = at_fd r b.fd
brought r hardware b = at_address r hardware_buffer b.desc.buffer
brought r unknown b = 0

allocate_content-count :
    (r : Resource) (s : System) (t : BufferType) (b : LorieBuffer)
    → b.desc.type ≡ t
    → acquired r (allocate_content s t b).1 + brought r t b
      ≡ released r (allocate_content s t b).1 + owned_if_made r (allocate_content s t b).0
unfolding allocate_content
allocate_content-count r s regular b e =
    let size = image_size b.desc.stride b.desc.height in
    elim (Option-cases (s.pixels size)) [
      | inl is ↦ ground arith
      | inr (p, is) ↦ ground (arith, finish-count r s regular (with_pixels (some p) b) e)
    ]
allocate_content-count r s file_descriptor b e = elim (Option-cases (s.mmap b.fd b.size b.offset)) [
  | inl is ↦ ground (arith, gave_fd-count r b.fd)
  | inr (p, is) ↦ ground (arith, finish-count r s file_descriptor (with_pixels (some p) b) e)
]
allocate_content-count r s hardware b e = elim (Option-cases b.desc.buffer) [
  | inl is ↦ ground arith
  | inr (h, is) ↦
      let b' = record b { desc = described (s.describe h) b.desc } in
      ground (arith, finish-count r s hardware b' e)
]
allocate_content-count r s unknown b e = ground arith

abbrev pub is_region : BufferType → Bool
is_region file_descriptor = true
is_region regular = false
is_region hardware = false
is_region unknown = false

pub allocate-count :
    (r : Resource) (s : System) (counter : ℕ) (q : Request)
    → (is_region q.type && not (acceptable q)) ≡ false
    → let m = allocate s counter q in
      acquired r m.log + brought r q.type (initial s counter q)
      ≡ released r m.log + owned_if_made r m.made + acquired r (opened s q)
unfolding allocate
allocate-count r s counter q h = ground (
  arith,
  allocate_content-count r s q.type (initial s counter q) refl,
  acquired-append r (opened s q) (allocate_content s q.type (initial s counter q)).1,
  released-append r (opened s q) (allocate_content s q.type (initial s counter q)).1,
  got_fd-count r (s.dup q.fd),
)

pub create_region-count :
    (r : Resource) (s : System) (size : ℕ)
    → is_zero (s.shared_memory size) ≡ false
    → let (fd, log) = create_region s size in acquired r log ≡ released r log + at_fd r fd
unfolding create_region
create_region-count r s size h = ground (arith, got_fd-count r (s.shared_memory size))
