-- ===== src/Cursor.antt =====
-- The picture of the cursor that the server shares with the renderer: lorieConvertCursor and
-- lorieSetCursor of app/src/main/cpp/lorie/InitOutput.c.
-- A read behind the end of an array and a write behind the end of `bits` make the result `none`.
pub mod Bounds
mod Examples
use termux_x11_extra.Base.{
  ℕ, zero, suc, ◌+◌, ◌*◌, ◌/◌, ◌%◌, ◌^◌, bit_and, bit_or, Bool, true, false, not, ◌&&◌, ◌||◌, List,
  [], ◌∷◌, ◌++◌, Option, none, some, ◌==◌, leb, if◌then◌else◌, get_elem?,
}

-- CursorBits; `argb` is none for NULL.
pub record CursorBits : Type 0 where
  pub argb : Option (List ℕ)
  pub source : List ℕ
  pub mask : List ℕ
  pub width : ℕ
  pub height : ℕ
  pub xhot : ℕ
  pub yhot : ℕ

-- CursorRec, with 16-bit colours.
pub record CursorRec : Type 0 where
  pub bits : CursorBits
  pub fore_red : ℕ
  pub fore_green : ℕ
  pub fore_blue : ℕ
  pub back_red : ℕ
  pub back_green : ℕ
  pub back_blue : ℕ

-- The part `cursor` of struct lorie_shared_server_state, without its lock.
pub record Picture : Type 0 where
  pub x : ℕ
  pub y : ℕ
  pub xhot : ℕ
  pub yhot : ℕ
  pub width : ℕ
  pub height : ℕ
  pub bits : List ℕ
  pub updated : Bool
  pub moved : Bool

-- From bgra to rgba.
unfoldable pub swap_channels : ℕ → ℕ
swap_channels p =
    bit_or
      (bit_or (bit_or (bit_and p 0xff000000) (bit_and p 0x00ff0000 / 2 ^ 16))
        (bit_and p 0x0000ff00))
      (bit_and p 0x000000ff * 2 ^ 16)

-- `fg` and `bg`
abbrev pub colour : ℕ → ℕ → ℕ → ℕ
colour red green blue =
    bit_or (bit_or (bit_and blue 0xff00 * 2 ^ 8) (bit_and green 0xff00)) (red / 2 ^ 8)

-- The body of the inner loop, on the bytes that were read.
abbrev pub mask_pixel : ℕ → ℕ → ℕ → ℕ → ℕ → ℕ
mask_pixel fg bg bit source mask =
    let d = if bit_and source bit == 0 then bg else fg in
    if bit_and mask bit == 0 then 0 else bit_or d 0xff000000

abbrev pub with_byte : Option ℕ → (ℕ → Option ℕ) → Option ℕ
with_byte none f = none
with_byte (some a) f = f a

-- One round of the inner loop, at the row `y` and the column `x`.
abbrev pub bitmap_pixel : CursorRec → ℕ → ℕ → ℕ → Option ℕ
bitmap_pixel c stride y x =
    let i = y * stride + x / 8 in
    let fg = colour c.fore_red c.fore_green c.fore_blue in
    let bg = colour c.back_red c.back_green c.back_blue in
    with_byte (get_elem? c.bits.source i) (λ s.
      with_byte (get_elem? c.bits.mask i) (λ m. some (mask_pixel fg bg (2 ^ bit_and x 7) s m)))

abbrev pub join {ℓ} : {A : Type ℓ} → Option A → Option (List A) → Option (List A)
join none xs = none
join (some x) none = none
join (some x) (some xs) = some (x ∷ xs)

-- A counting loop from `i` on, `n` rounds, each of which yields an item.
abbrev pub count_up {ℓ} : {A : Type ℓ} → (ℕ → Option A) → ℕ → ℕ → Option (List A)
count_up f i zero = some []
count_up f i (suc n) = join (f i) (count_up f (i + 1) n)

abbrev pub concat : List (List ℕ) → List ℕ
concat [] = []
concat (xs ∷ xss) = xs ++ concat xss

abbrev pub concat_some : Option (List (List ℕ)) → Option (List ℕ)
concat_some none = none
concat_some (some xss) = some (concat xss)

abbrev pub argb_pixel : List ℕ → ℕ → Option ℕ
argb_pixel argb i = with_byte (get_elem? argb i) (λ p. some (swap_channels p))

abbrev pub convert_bits : (ℕ → ℕ) → CursorRec → Option (List ℕ) → Option (List ℕ)
convert_bits byte_pad c (some argb) = count_up (argb_pixel argb) 0 (c.bits.width * c.bits.height)
convert_bits byte_pad c none = concat_some (
    count_up (λ y. count_up (bitmap_pixel c (byte_pad c.bits.width) y) 0 c.bits.width) 0
      c.bits.height)

-- lorieConvertCursor: what is written to `data`, in order. `byte_pad` is the X server's
-- BitmapBytePad.
unfoldable pub convert_cursor : (ℕ → ℕ) → CursorRec → Option (List ℕ)
unfolding swap_channels
convert_cursor byte_pad c = convert_bits byte_pad c c.bits.argb

-- The array after the writes to its front.
abbrev pub write_front : List ℕ → List ℕ → Option (List ℕ)
write_front [] old = some old
write_front (d ∷ data') [] = none
write_front (d ∷ data') (o ∷ old) = join (some d) (write_front data' old)

abbrev pub written : Option (List ℕ) → List ℕ → Option (List ℕ)
written none old = none
written (some pixels) old = write_front pixels old

-- `pCurs->bits->width >= 512 || pCurs->bits->height >= 512`
abbrev pub is_oversized : CursorRec → Bool
is_oversized c = leb 512 c.bits.width || leb 512 c.bits.height

-- The end of lorieSetCursor, with lorieMoveCursor.
abbrev pub moved_to : ℕ → ℕ → Picture → Picture
moved_to x y p = record p { updated = true; x = x; y = y; moved = true }

-- The branch of a cursor, whose `bits` were read before it was replaced.
abbrev pub show_cursor : ℕ → ℕ → CursorBits → Picture → Option (List ℕ) → Option Picture
show_cursor x y bits p none = none
show_cursor x y bits p (some pixels) = some (
    moved_to x y (record p {
      xhot = bits.xhot;
      yhot = bits.yhot;
      width = bits.width;
      height = bits.height;
      bits = pixels;
    }))

-- The branch of no cursor.
abbrev pub hide_cursor : ℕ → ℕ → Picture → Picture
hide_cursor x y p = moved_to x y (record p { xhot = 0; yhot = 0; width = 0; height = 0 })

abbrev pub show_converted :
    (ℕ → ℕ) → ℕ → ℕ → CursorBits → Picture → Option CursorRec → Option Picture
show_converted byte_pad x y bits p none = some (hide_cursor x y p)
show_converted byte_pad x y bits p (some shown) =
    show_cursor x y bits p (written (convert_cursor byte_pad shown) p.bits)

-- lorieSetCursor; `root` is the X server's rootCursor, or none for NULL.
unfoldable pub set_cursor :
    (ℕ → ℕ) → Option CursorRec → Option CursorRec → ℕ → ℕ → Picture → Option Picture
unfolding convert_cursor
set_cursor byte_pad root none x y p = some (hide_cursor x y p)
set_cursor byte_pad root (some c) x y p =
    show_converted byte_pad x y c.bits p (if is_oversized c then root else some c)
