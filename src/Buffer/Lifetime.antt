-- ===== src/Buffer/Lifetime.antt =====
-- A buffer from its creation to its last release, and the lock between them.
use termux_x11_extra.Base.{
  ℕ, ◌+◌, ◌≡◌, ◌&&◌, not, refl, Bool, false, ◌++◌, Option, none, some, arith, inl, inr,
  Option-cases,
}
use mathlib.Core.Path.{subst}
use termux_x11_extra.Base.Int.{ℤ, is_zero}
use termux_x11_extra.Buffer.{
  BufferType, regular, file_descriptor, hardware, unknown, Format, LorieBuffer, Resource, Log, free,
  release,
}
use termux_x11_extra.Buffer.Create.{
  System, acceptable, request_own, Request, allocate, allocate_content, finish, allocate_region,
  allocate_hardware, allocate_own, image_size, align_to_page, create_region, with_pixels, described,
  initial,
}
use termux_x11_extra.Buffer.Convert.{convert, convert_region, convert_hardware}
use termux_x11_extra.Buffer.Balance.{
  is_region, acquired, owned_if_made, released, acquired-append, released-append, free-count,
}
use termux_x11_extra.Buffer.Ownership.{allocate_own-count, convert-count}

-- A buffer with one reference that is not locked.
abbrev pub IsFresh : LorieBuffer → Type 0
IsFresh b = (b.refcount ≡ 1) × (b.locked ≡ false) × (b.locked_data ≡ none)

abbrev pub IsFreshIfMade : Option LorieBuffer → Type 0
IsFreshIfMade none = Unit
IsFreshIfMade (some b) = IsFresh b

finish-IsFresh : (s : System) (b : LorieBuffer) → IsFresh b → IsFreshIfMade (finish s b).0
unfolding finish
finish-IsFresh s b h = elim (Option-cases s.block) [
  | inl is ↦ ground arith
  | inr (a, is) ↦ ground arith
]

allocate_content-IsFresh :
    (s : System) (t : BufferType) (b : LorieBuffer)
    → IsFresh b
    → IsFreshIfMade (allocate_content s t b).0
unfolding allocate_content
allocate_content-IsFresh s regular b h =
    elim (Option-cases (s.pixels (image_size b.desc.stride b.desc.height))) [
      | inl is ↦ ground arith
      | inr (p, is) ↦ ground (arith, finish-IsFresh s (with_pixels (some p) b) h)
    ]
allocate_content-IsFresh s file_descriptor b h = elim (Option-cases (s.mmap b.fd b.size b.offset)) [
  | inl is ↦ ground arith
  | inr (p, is) ↦ ground (arith, finish-IsFresh s (with_pixels (some p) b) h)
]
allocate_content-IsFresh s hardware b h = elim (Option-cases b.desc.buffer) [
  | inl is ↦ ground arith
  | inr (a, is) ↦
      let b' = record b { desc = described (s.describe a) b.desc } in
      ground (arith, finish-IsFresh s b' h)
]
allocate_content-IsFresh s unknown b h = tt

allocate-IsFresh :
    (s : System) (counter : ℕ) (q : Request) → IsFreshIfMade (allocate s counter q).made
unfolding allocate
allocate-IsFresh s counter q =
    ground (arith, allocate_content-IsFresh s q.type (initial s counter q) (refl, refl, refl))

allocate_region-IsFresh :
    (s : System) (counter : ℕ) (m : ℤ × Log) (size : ℕ) (q : Request)
    → IsFreshIfMade (allocate_region s counter m size q).made
allocate_region-IsFresh s counter (fd, log) size q =
    ground (arith, allocate-IsFresh s counter (record q { fd = fd; size = size }))

allocate_hardware-IsFresh :
    (s : System) (counter : ℕ) (o : Option ℕ) (q : Request)
    → IsFreshIfMade (allocate_hardware s counter o q).made
allocate_hardware-IsFresh s counter none q = allocate-IsFresh s counter q
allocate_hardware-IsFresh s counter (some h) q =
    allocate-IsFresh s counter (record q { buf = some h })

pub allocate_own-IsFresh :
    (s : System) (counter : ℕ) (width height : ℤ) (format : Format) (type : BufferType)
    → IsFreshIfMade (allocate_own s counter width height format type).made
unfolding allocate_own
allocate_own-IsFresh s counter width height format regular =
    allocate-IsFresh s counter (request_own width height format regular)
allocate_own-IsFresh s counter width height format unknown =
    allocate-IsFresh s counter (request_own width height format unknown)
allocate_own-IsFresh s counter width height format file_descriptor =
    let size = align_to_page s.page_size (image_size width height) in
    allocate_region-IsFresh s counter (create_region s size) size
      (request_own width height format file_descriptor)
allocate_own-IsFresh s counter width height format hardware =
    allocate_hardware-IsFresh s counter (s.new_hardware width height format)
      (request_own width height format hardware)

convert_region-IsFresh :
    (s : System) (b : LorieBuffer) (format : Format) (size : ℕ) (m : ℤ × Log)
    → IsFresh b
    → IsFresh (convert_region s b format size m).0
convert_region-IsFresh s b format size (fd, log) h = elim (Option-cases (s.mmap fd size 0)) [
  | inl is ↦ ground arith
  | inr (p, is) ↦ ground arith
]

convert_hardware-IsFresh :
    (s : System) (b : LorieBuffer) (format : Format) (o : Option ℕ)
    → IsFresh b
    → IsFresh (convert_hardware s b format o).0
convert_hardware-IsFresh s b format none h = h
convert_hardware-IsFresh s b format (some a) h = ground arith

convert-IsFresh :
    (s : System) (b : LorieBuffer) (type : BufferType) (format : Format)
    → IsFresh b
    → IsFresh (convert s b type format).0
unfolding convert
convert-IsFresh s b regular format h = ground arith
convert-IsFresh s b unknown format h = ground arith
convert-IsFresh s b file_descriptor format h =
    let size = align_to_page s.page_size (image_size b.desc.stride b.desc.height) in
    ground (arith, convert_region-IsFresh s b format size (create_region s size) h)
convert-IsFresh s b hardware format h =
    let o = s.new_hardware b.desc.width b.desc.height format in
    ground (arith, convert_hardware-IsFresh s b format o h)

-- The one release of a fresh buffer frees it.
release-IsFresh :
    (context display : Bool) (b : LorieBuffer)
    → IsFresh b
    → release context display b ≡ (none, free context display b)
unfolding release
release-IsFresh context display b h = rw (h.0) refl

-- A buffer of LorieBuffer_allocate, under the conditions of `allocate_own-count`, that is converted
-- and released once, in whatever state the system is by then: the release frees it, and what the
-- three calls acquire together they give back together.
pub life-count :
    (r : Resource) (s s' : System) (counter : ℕ) (width height : ℤ) (format : Format)
    (type : BufferType) (b : LorieBuffer) (type' : BufferType) (format' : Format)
    (context display : Bool)
    → ((size : ℕ) → is_zero (s.shared_memory size) ≡ false)
    → ((size : ℕ) → is_zero (s'.shared_memory size) ≡ false)
    → (is_region type && not (acceptable (request_own width height format type))) ≡ false
    → (allocate_own s counter width height format type).made ≡ some b
    → let (b', converted) = convert s' b type' format' in
      let (left, freed) = release context display b' in
      let log = (allocate_own s counter width height format type).log ++ (converted ++ freed) in
      (left ≡ none) × (acquired r log ≡ released r log)
life-count r s s' counter width height format type b type' format' context display live live' ok
      made =
    let fresh =
      subst IsFreshIfMade made (allocate_own-IsFresh s counter width height format type) in
    let log = (allocate_own s counter width height format type).log in
    let made_count : acquired r log ≡ released r log + owned_if_made r (some b) =
      subst (λ o. acquired r log ≡ released r log + owned_if_made r o) made
        (allocate_own-count r s counter width height format type live ok) in
    let b' = (convert s' b type' format').0 in
    let converted = (convert s' b type' format').1 in
    rw (release-IsFresh context display b' (convert-IsFresh s' b type' format' fresh)) (
      refl,
      ground (
        arith,
        made_count,
        convert-count r s' b type' format' live',
        free-count r context display b',
        acquired-append r log (converted ++ free context display b'),
        released-append r log (converted ++ free context display b'),
        acquired-append r converted (free context display b'),
        released-append r converted (free context display b'),
      ),
    )
