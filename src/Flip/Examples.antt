-- ===== src/Flip/Examples.antt =====
-- Tests of the acceptance of flips, and the properties at a concrete pixmap.
use termux_x11_extra.Base.{◌≡◌, refl, true, false, none, some}
use termux_x11_extra.Base.Int.{pos, negsuc}
use termux_x11_extra.Buffer.{LorieBuffer, Locking, regular, b8g8r8a8}
use termux_x11_extra.Buffer.Create.{System}
use termux_x11_extra.Flip.{Pixmap, Screen, present_flip}

abbrev system : System
system = record {
  page_size = 4096;
  shared_memory = λ size. pos 30;
  memfd = pos 31;
  ashmem = pos 32;
  set_name = pos 0;
  set_size = λ size. pos 0;
  dup = λ fd. pos 40;
  mmap = λ fd size offset. some 5000;
  pixels = λ size. some 6000;
  block = some 7000;
  new_hardware = λ width height format. some 8000;
  describe = λ h. record { width = pos 2; height = pos 2; stride = pos 4; format = b8g8r8a8 };
  lock_status = pos 0;
  lock_address = 9000;
}

abbrev locking : Locking
locking = record { ret = pos 0; address = some 9000 }

abbrev bitmap : LorieBuffer
bitmap = record {
  address = 7000;
  refcount = 1;
  desc = record {
    width = pos 2;
    height = pos 2;
    stride = pos 2;
    format = b8g8r8a8;
    type = regular;
    id = 0;
    buffer = none;
    pixels = some 6000;
  };
  locked = false;
  locked_data = none;
  fd = negsuc 0;
  size = 0;
  offset = 0;
  texture = 0;
  image = none;
}

abbrev square : Pixmap
square = record {
  width = 2;
  height = 2;
  buffer = some bitmap;
  locked = none;
  mem = none;
  imported = false;
}

abbrev screen : Screen
screen = record { width = 2; height = 3; legacy_drawing = false; flip = false; force_flip = false }

-- The screen has two columns and three rows: the square is accepted.
square_accepted : (present_flip system locking screen square).accepted ≡ true
unfolding present_flip
square_accepted = refl
