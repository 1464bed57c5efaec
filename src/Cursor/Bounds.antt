-- ===== src/Cursor/Bounds.antt =====
-- Every read and write of lorieSetCursor stays inside its array, and what an oversized cursor leaves.
use termux_x11_extra.Base.{
  ℕ, zero, suc, ◌+◌, ◌-◌, ◌*◌, ◌/◌, ◌^◌, ◌≤◌, ◌<◌, ◌≡◌, ◌∙◌, refl, sym, ap, true, List, [], ◌∷◌,
  Option, none, some, arith, length, length-append, get_elem?, bit_and, if-true, if-false, All,
  Bool-cases, inl, inr,
}
use mathlib.Core.Path.{subst}
use termux_x11_extra.Cursor.{
  CursorBits, CursorRec, Picture, swap_channels, colour, mask_pixel, with_byte, bitmap_pixel, join,
  count_up, concat, concat_some, argb_pixel, convert_bits, convert_cursor, write_front, written,
  is_oversized, show_cursor, show_converted, set_cursor,
}

-- The list of an array is read inside its bounds.
get_elem?-some :
    {A : Type 0} (xs : List A) (i : ℕ) → i < length xs → (x : A) × (get_elem? xs i ≡ some x)
get_elem?-some [] i h = absurd (omega arith)
get_elem?-some (x ∷ xs) zero h = (x, refl)
get_elem?-some (x ∷ xs) (suc i) h = get_elem?-some xs i (omega arith)

-- A counting loop ends with one item for each round, where each round yields one.
module _ {A : Type 0} (f : ℕ → Option A) (P : A → Type 0) (m : ℕ) where
  count_up-total :
      (i n : ℕ)
      → i + n ≤ m
      → ((k : ℕ) → k < m → (x : A) × (f k ≡ some x) × P x)
      → (xs : List A) × (count_up f i n ≡ some xs) × (length xs ≡ n) × All P xs
  count_up-total i zero h each = ([], refl, refl, tt)
  count_up-total i (suc n) h each =
      let (x, is, px) = each i (omega arith) in
      let (xs, are, long, pxs) = count_up-total (i + 1) n (omega arith) each in
      (
        x ∷ xs,
        ap (λ o. join o (count_up f (i + 1) n)) is ∙ ap (λ o. join (some x) o) are,
        ap suc long,
        (px, pxs),
      )

length-concat :
    (w : ℕ) (xss : List (List ℕ))
    → All (λ (xs : List ℕ). length xs ≡ w) xss
    → length (concat xss) ≡ w * length xss
length-concat w [] h = omega arith
length-concat w (xs ∷ xss) h =
    omega (arith, length-append xs (concat xss), length-concat w xss h.1, h.0)

-- The arrays of a cursor are as large as its size says, a row of a bitmap having `byte_pad` bytes.
abbrev pub HasArraysFor : (ℕ → ℕ) → CursorBits → Option (List ℕ) → Type 0
HasArraysFor byte_pad b (some argb) = b.width * b.height ≤ length argb
HasArraysFor byte_pad b none =
    (byte_pad b.width * b.height ≤ length b.source)
    × (byte_pad b.width * b.height ≤ length b.mask)
    × (b.width ≤ byte_pad b.width * 8)

abbrev pub HasArrays : (ℕ → ℕ) → CursorBits → Type 0
HasArrays byte_pad b = HasArraysFor byte_pad b b.argb

row-end : (y d stride : ℕ) → y * stride + stride ≤ stride * (y + 1 + d)
row-end y d stride = omega arith

row-bound : (y h stride : ℕ) → y < h → y * stride + stride ≤ stride * h
row-bound y h stride hy =
    let is : y + 1 + (h - y - 1) ≡ h = omega arith in
    subst (λ n. y * stride + stride ≤ stride * n) is (row-end y (h - y - 1) stride)

index-bound :
    (x y w h stride : ℕ) → x < w → y < h → w ≤ stride * 8 → y * stride + x / 8 < stride * h
index-bound x y w h stride hx hy hw = omega (arith, row-bound y h stride hy)

convert_argb-length :
    (argb : List ℕ) (n : ℕ)
    → n ≤ length argb
    → (pixels : List ℕ) × (count_up (argb_pixel argb) 0 n ≡ some pixels) × (length pixels ≡ n)
convert_argb-length argb n has =
    let each : (k : ℕ) → k < n → (x : ℕ) × (argb_pixel argb k ≡ some x) × Unit {0} = λ k hk.
      let (p, is) = get_elem?-some argb k (omega arith) in
      (swap_channels p, ap (λ o. with_byte o (λ p. some (swap_channels p))) is, tt) in
    let (pixels, are, long, all) =
      count_up-total (argb_pixel argb) (λ x. Unit {0}) n 0 n (omega arith) each in
    (pixels, are, long)

bitmap_pixel-some :
    (c : CursorRec) (stride y x : ℕ)
    → x < c.bits.width
    → y < c.bits.height
    → c.bits.width ≤ stride * 8
    → stride * c.bits.height ≤ length c.bits.source
    → stride * c.bits.height ≤ length c.bits.mask
    → (p : ℕ) × (bitmap_pixel c stride y x ≡ some p) × Unit {0}
bitmap_pixel-some c stride y x hx hy wide has_source has_mask =
    let i = y * stride + x / 8 in
    let inside = index-bound x y c.bits.width c.bits.height stride hx hy wide in
    let (s, is) = get_elem?-some c.bits.source i (omega (arith, inside)) in
    let (m, is') = get_elem?-some c.bits.mask i (omega (arith, inside)) in
    let fg = colour c.fore_red c.fore_green c.fore_blue in
    let bg = colour c.back_red c.back_green c.back_blue in
    let pixel = mask_pixel fg bg (2 ^ bit_and x 7) in
    (
      pixel s m,
      ap (λ o. with_byte o (λ s. with_byte (get_elem? c.bits.mask i) (λ m. some (pixel s m)))) is
          ∙ ap (λ o. with_byte o (λ m. some (pixel s m))) is',
      tt,
    )

convert_bitmap-length :
    (c : CursorRec) (stride : ℕ)
    → c.bits.width ≤ stride * 8
    → stride * c.bits.height ≤ length c.bits.source
    → stride * c.bits.height ≤ length c.bits.mask
    → (pixels : List ℕ) × (concat_some
          (count_up (λ y. count_up (bitmap_pixel c stride y) 0 c.bits.width) 0 c.bits.height)
        ≡ some pixels)
      × (length pixels ≡ c.bits.width * c.bits.height)
convert_bitmap-length c stride wide has_source has_mask =
    let w = c.bits.width in
    let h = c.bits.height in
    let row = λ (y : ℕ). count_up (bitmap_pixel c stride y) 0 w in
    let each : (y : ℕ) → y < h → (xs : List ℕ) × (row y ≡ some xs) × (length xs ≡ w) = λ y hy.
      let (xs, are, long, all) =
        count_up-total (bitmap_pixel c stride y) (λ x. Unit {0}) w 0 w (omega arith)
          (λ x hx. bitmap_pixel-some c stride y x hx hy wide has_source has_mask) in
      (xs, are, long) in
    let (rows, are, long, all) =
      count_up-total row (λ xs. length xs ≡ w) h 0 h (omega arith) each in
    (concat rows, ap concat_some are, length-concat w rows all ∙ ap (λ n. w * n) long)

convert_bits-length :
    (byte_pad : ℕ → ℕ) (c : CursorRec) (o : Option (List ℕ))
    → HasArraysFor byte_pad c.bits o
    → (pixels : List ℕ) × (convert_bits byte_pad c o ≡ some pixels)
      × (length pixels ≡ c.bits.width * c.bits.height)
convert_bits-length byte_pad c (some argb) has =
    convert_argb-length argb (c.bits.width * c.bits.height) has
convert_bits-length byte_pad c none (has_source, has_mask, wide) =
    convert_bitmap-length c (byte_pad c.bits.width) wide has_source has_mask

-- Conversion of a cursor whose arrays are large enough: no read is outside an array, and as many
-- pixels are written as the cursor has.
pub convert_cursor-length :
    (byte_pad : ℕ → ℕ) (c : CursorRec)
    → HasArrays byte_pad c.bits
    → (pixels : List ℕ) × (convert_cursor byte_pad c ≡ some pixels)
      × (length pixels ≡ c.bits.width * c.bits.height)
unfolding convert_cursor
convert_cursor-length byte_pad c has = convert_bits-length byte_pad c c.bits.argb has

write_front-total :
    (pixels old : List ℕ)
    → length pixels ≤ length old
    → (new : List ℕ) × (write_front pixels old ≡ some new) × (length new ≡ length old)
write_front-total [] old h = (old, refl, refl)
write_front-total (d ∷ data') [] h = absurd (omega arith)
write_front-total (d ∷ data') (o ∷ old) h =
    let (new, is, long) = write_front-total data' old (omega arith) in
    (d ∷ new, ap (λ r. join (some d) r) is, ap suc long)

square-bound : (w h : ℕ) → w < 512 → h < 512 → w * h ≤ 512 * 512
square-bound w h hw hh = omega (arith, row-bound h 512 w hh)

-- A picture of the cursor whose array has kept its size and that has the size of the bits.
abbrev pub IsShown : ℕ → ℕ → CursorBits → Option Picture → Type 0
IsShown x y bits o =
    (p : Picture) × (o ≡ some p)
    × (length p.bits ≡ 512 * 512)
    × (p.x ≡ x)
    × (p.y ≡ y)
    × (p.updated ≡ true)
    × (p.moved ≡ true)
    × (p.width ≡ bits.width)
    × (p.height ≡ bits.height)

set_small :
    (byte_pad : ℕ → ℕ) (x y : ℕ) (bits : CursorBits) (p : Picture) (shown : CursorRec)
    → HasArrays byte_pad shown.bits
    → shown.bits.width < 512
    → shown.bits.height < 512
    → length p.bits ≡ 512 * 512
    → IsShown x y bits (show_converted byte_pad x y bits p (some shown))
set_small byte_pad x y bits p shown has hw hh size =
    let (pixels, are, count) = convert_cursor-length byte_pad shown has in
    let (new, is, long) =
      write_front-total pixels p.bits
        (omega (arith, square-bound shown.bits.width shown.bits.height hw hh, count, size)) in
    (
      _,
      ap (λ o. show_cursor x y bits p (written o p.bits)) are
          ∙ ap (λ o. show_cursor x y bits p o) is,
      long ∙ size,
      refl,
      refl,
      refl,
      refl,
      refl,
      refl,
    )

-- lorieSetCursor of any cursor and with any root cursor below 512 pixels a side, whose arrays are
-- large enough: no read or write is outside an array, `bits` keeps its size, and the renderer is told.
-- The size that is set is the given cursor's, also where the pixels are the root cursor's.
pub set_cursor-IsShown :
    (byte_pad : ℕ → ℕ) (root c : CursorRec) (x y : ℕ) (p : Picture)
    → HasArrays byte_pad c.bits
    → HasArrays byte_pad root.bits
    → root.bits.width < 512
    → root.bits.height < 512
    → length p.bits ≡ 512 * 512
    → IsShown x y c.bits (set_cursor byte_pad (some root) (some c) x y p)
unfolding set_cursor
set_cursor-IsShown byte_pad root c x y p has has_root hw hh size =
    elim (Bool-cases (is_oversized c)) [
      | inl big ↦
          subst (λ o. IsShown x y c.bits (show_converted byte_pad x y c.bits p o))
            (sym (if-true (is_oversized c) (some root) (some c) big))
            (set_small byte_pad x y c.bits p root has_root hw hh size)
      | inr small ↦
          subst (λ o. IsShown x y c.bits (show_converted byte_pad x y c.bits p o))
            (sym (if-false (is_oversized c) (some root) (some c) small))
            (set_small byte_pad x y c.bits p c has (ground arith) (ground arith) size)
    ]

-- A cursor of at least 512 by 513 pixels, under the same conditions: the size that the renderer is
-- told has more pixels than `bits`.
pub set_cursor-oversized :
    (byte_pad : ℕ → ℕ) (root c : CursorRec) (x y : ℕ) (p : Picture)
    → HasArrays byte_pad c.bits
    → HasArrays byte_pad root.bits
    → root.bits.width < 512
    → root.bits.height < 512
    → length p.bits ≡ 512 * 512
    → 512 ≤ c.bits.width
    → 512 < c.bits.height
    → (p' : Picture) × (set_cursor byte_pad (some root) (some c) x y p ≡ some p')
      × (length p'.bits < p'.width * p'.height)
set_cursor-oversized byte_pad root c x y p has has_root hw hh size wide high =
    let (p', is, long, _, _, _, _, width, height) =
      set_cursor-IsShown byte_pad root c x y p has has_root hw hh size in
    (
      p',
      is,
      omega (
        arith,
        row-bound 512 c.bits.height c.bits.width high,
        ap (λ n. n * p'.height) width,
        ap (λ n. c.bits.width * n) height,
        long,
      ),
    )
