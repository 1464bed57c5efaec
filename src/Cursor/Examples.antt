-- ===== src/Cursor/Examples.antt =====
-- Tests of the cursor conversion, and the properties at concrete cursors.
use termux_x11_extra.Base.{
  ℕ, zero, suc, ◌+◌, ◌*◌, ◌/◌, ◌≡◌, refl, false, List, [], ◌∷◌, none, some, arith, length,
}
use termux_x11_extra.Cursor.{CursorRec, Picture, swap_channels, convert_cursor, set_cursor}
use termux_x11_extra.Cursor.Bounds.{IsShown, set_cursor-IsShown}

-- BitmapBytePad of the X server: rows of whole 32-bit units.
abbrev byte_pad : ℕ → ℕ
byte_pad width = (width + 31) / 32 * 4

swapped : swap_channels 0x80112233 ≡ 0x80332211
unfolding swap_channels
swapped = refl

abbrev dot : CursorRec
dot = record {
  bits = record {
    argb = none;
    source = 1 ∷ 0 ∷ 0 ∷ 0 ∷ [];
    mask = 3 ∷ 0 ∷ 0 ∷ 0 ∷ [];
    width = 3;
    height = 1;
    xhot = 0;
    yhot = 0;
  };
  fore_red = 0xffff;
  fore_green = 0;
  fore_blue = 0;
  back_red = 0;
  back_green = 0;
  back_blue = 0xffff;
}

dot_pixels : convert_cursor byte_pad dot ≡ some (0xff0000ff ∷ 0xffff0000 ∷ 0 ∷ [])
unfolding convert_cursor
dot_pixels = refl

-- A list of one number, as long as asked.
abbrev fill : ℕ → ℕ → List ℕ
fill zero a = []
fill (suc n) a = a ∷ fill n a

length-fill : (n a : ℕ) → length (fill n a) ≡ n
length-fill zero a = refl
length-fill (suc n) a = omega (arith, length-fill n a)

abbrev picture : Picture
picture = record {
  x = 0;
  y = 0;
  xhot = 0;
  yhot = 0;
  width = 0;
  height = 0;
  bits = fill 262144 0;
  updated = false;
  moved = false;
}

set_cursor-IsShown_example :
    IsShown 5 6 dot.bits (set_cursor byte_pad (some dot) (some dot) 5 6 picture)
set_cursor-IsShown_example =
    set_cursor-IsShown byte_pad dot dot 5 6 picture (omega arith, omega arith, omega arith)
      (omega arith, omega arith, omega arith) (omega arith) (omega arith) (length-fill 262144 0)

abbrev poster : CursorRec
poster = record dot {
  bits = record dot.bits { source = fill 32832 1; mask = fill 32832 1; width = 512; height = 513 };
}
