-- ===== src/Buffer/Ownership.antt =====
-- Who owns what over the functions of LorieBuffer: creation, wrapping, conversion and the last
-- release.
use termux_x11_extra.Base.{
  ℕ, suc, ◌+◌, ◌≡◌, ◌&&◌, ◌⊎◌, not, refl, true, false, [], ◌∷◌, Option, none, some, arith, inl, inr,
  Option-cases,
}
use termux_x11_extra.Base.Int.{ℤ, pos, negsuc, is_pos, is_zero}
use termux_x11_extra.Buffer.{
  BufferType, regular, file_descriptor, hardware, unknown, Format, LorieBuffer, Resource,
  descriptor, mapping, memory, got, gave, copied, Log, gave_at, is_drawable,
}
use termux_x11_extra.Buffer.Create.{
  System, create_region, align_to_page, image_size, acceptable, Request, request_own, allocate,
  allocate_region, allocate_hardware, allocate_own, wrap_file_descriptor, request_wrap,
}
use termux_x11_extra.Buffer.Convert.{convert, convert_region, convert_hardware, is_regular}
use termux_x11_extra.Buffer.Balance.{
  is_region, acquired, released, at_fd, owned, owned_if_made, acquired-append, released-append,
  got_fd-count, gave_at-count, allocate-count, create_region-count,
}

is_regular-cases : (t : BufferType) → (t ≡ regular) ⊎ (is_regular t ≡ false)
is_regular-cases regular = inl refl
is_regular-cases file_descriptor = inr refl
is_regular-cases hardware = inr refl
is_regular-cases unknown = inr refl

allocate_region-count :
    (r : Resource) (s : System) (counter : ℕ) (m : ℤ × Log) (size : ℕ) (q : Request)
    → q.take_fd ≡ true
    → q.type ≡ file_descriptor
    → acceptable q ≡ true
    → acquired r m.1 ≡ released r m.1 + at_fd r m.0
    → acquired r (allocate_region s counter m size q).log
      ≡ released r (allocate_region s counter m size q).log
        + owned_if_made r (allocate_region s counter m size q).made
allocate_region-count r s counter (negsuc n, log) size q take is ok h = ground arith
allocate_region-count r s counter (pos n, log) size q take is ok h =
    let q' = record q { fd = pos n; size = size } in
    ground (
      arith,
      allocate-count r s counter q' (ground arith),
      acquired-append r log (allocate s counter q').log,
      released-append r log (allocate s counter q').log,
    )

allocate_hardware-count :
    (r : Resource) (s : System) (counter : ℕ) (o : Option ℕ) (q : Request)
    → q.take_fd ≡ true
    → q.type ≡ hardware
    → q.buf ≡ none
    → acquired r (allocate_hardware s counter o q).log
      ≡ released r (allocate_hardware s counter o q).log
        + owned_if_made r (allocate_hardware s counter o q).made
allocate_hardware-count r s counter none q take is empty =
    ground (arith, allocate-count r s counter q (ground arith))
allocate_hardware-count r s counter (some h) q take is empty =
    ground (arith, allocate-count r s counter (record q { buf = some h }) (ground arith))

-- LorieBuffer_allocate, where no descriptor of a new region is 0, and a buffer on a descriptor has
-- a format and a size that are accepted: whatever calls fail, all that was acquired is held by the
-- buffer or given back.
pub allocate_own-count :
    (r : Resource) (s : System) (counter : ℕ) (width height : ℤ) (format : Format)
    (type : BufferType)
    → ((size : ℕ) → is_zero (s.shared_memory size) ≡ false)
    → (is_region type && not (acceptable (request_own width height format type))) ≡ false
    → let m = allocate_own s counter width height format type in
      acquired r m.log ≡ released r m.log + owned_if_made r m.made
unfolding allocate_own
allocate_own-count r s counter width height format regular live ok =
    ground (arith, allocate-count r s counter (request_own width height format regular) ok)
allocate_own-count r s counter width height format unknown live ok =
    ground (arith, allocate-count r s counter (request_own width height format unknown) ok)
allocate_own-count r s counter width height format file_descriptor live ok =
    let size = align_to_page s.page_size (image_size width height) in
    allocate_region-count r s counter (create_region s size) size
      (request_own width height format file_descriptor) refl refl (ground arith)
      (create_region-count r s size (live size))
allocate_own-count r s counter width height format hardware live ok =
    allocate_hardware-count r s counter (s.new_hardware width height format)
      (request_own width height format hardware) refl refl refl

-- LorieBuffer_wrapFileDescriptor with a format and a size that are accepted: the duplicate of the
-- descriptor and all else is held by the buffer or given back. The descriptor that is passed is
-- neither given back nor kept.
pub wrap_file_descriptor-count :
    (r : Resource) (s : System) (counter : ℕ) (width stride height : ℤ) (format : Format) (fd : ℤ)
    (offset : ℕ)
    → (is_drawable format && (is_pos width && is_pos height)) ≡ true
    → let m = wrap_file_descriptor s counter width stride height format fd offset in
      acquired r m.log ≡ released r m.log + owned_if_made r m.made
unfolding wrap_file_descriptor
wrap_file_descriptor-count r s counter width stride height format fd offset ok =
    let q = request_wrap width stride height format fd offset in
    ground (arith, allocate-count r s counter q (ground arith), got_fd-count r (s.dup fd))

convert_region-count :
    (r : Resource) (s : System) (b : LorieBuffer) (format : Format) (size : ℕ) (m : ℤ × Log)
    → b.desc.type ≡ regular
    → acquired r m.1 ≡ released r m.1 + at_fd r m.0
    → let (b', log) = convert_region s b format size m in
      acquired r log + owned r b ≡ released r log + owned r b'
convert_region-count r s b format size (negsuc n, log) is h = ground arith
convert_region-count r s b format size (pos n, log) is h =
    elim (Option-cases (s.mmap (pos n) size 0)) [
      | inl failed ↦ ground (
        arith,
        acquired-append r log (gave (descriptor n) ∷ []),
        released-append r log (gave (descriptor n) ∷ []),
      )
      | inr (p, mapped) ↦
          let free_old = gave_at memory b.desc.pixels in
          ground (
            arith,
            gave_at-count r memory b.desc.pixels,
            acquired-append r log (got (mapping p) ∷ copied b.desc.pixels p ∷ free_old),
            released-append r log (got (mapping p) ∷ copied b.desc.pixels p ∷ free_old),
          )
    ]

convert_hardware-count :
    (r : Resource) (s : System) (b : LorieBuffer) (format : Format) (o : Option ℕ)
    → b.desc.type ≡ regular
    → let (b', log) = convert_hardware s b format o in
      acquired r log + owned r b ≡ released r log + owned r b'
convert_hardware-count r s b format none is = ground arith
convert_hardware-count r s b format (some h) is =
    ground (arith, gave_at-count r memory b.desc.pixels)

-- LorieBuffer_convert, where no descriptor of a new region is 0: what the buffer held before and
-- what is acquired is given back or held by the buffer after it, on every path.
pub convert-count :
    (r : Resource) (s : System) (b : LorieBuffer) (type : BufferType) (format : Format)
    → ((size : ℕ) → is_zero (s.shared_memory size) ≡ false)
    → let (b', log) = convert s b type format in
      acquired r log + owned r b ≡ released r log + owned r b'
unfolding convert
convert-count r s b regular format live = ground arith
convert-count r s b unknown format live = ground arith
convert-count r s b file_descriptor format live =
    let size = align_to_page s.page_size (image_size b.desc.stride b.desc.height) in
    elim (is_regular-cases b.desc.type) [
      | inl is ↦ ground (
        arith,
        convert_region-count r s b format size (create_region s size) is
            (create_region-count r s size (live size)),
      )
      | inr other ↦ ground arith
    ]
convert-count r s b hardware format live = elim (is_regular-cases b.desc.type) [
  | inl is ↦ ground (
    arith,
    convert_hardware-count r s b format (s.new_hardware b.desc.width b.desc.height format) is,
  )
  | inr other ↦ ground arith
]

-- LorieBuffer_allocate of a buffer on a descriptor whose format or size is refused, where the region
-- was created: there is no buffer, and the descriptor of the region is neither kept nor given back.
pub allocate_own-leak :
    (s : System) (counter : ℕ) (width height : ℤ) (format : Format) (fd : ℕ)
    → acceptable (request_own width height format file_descriptor) ≡ false
    → s.shared_memory (align_to_page s.page_size (image_size width height)) ≡ pos (suc fd)
    → let m = allocate_own s counter width height format file_descriptor in
      (m.made ≡ none) × (m.log ≡ got (descriptor (suc fd)) ∷ [])
unfolding allocate_own create_region allocate
allocate_own-leak s counter width height format fd refused made = ground arith
