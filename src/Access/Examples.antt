-- ===== src/Access/Examples.antt =====
-- Runs of loriePrepareAccess and its kin of app/src/main/cpp/lorie/InitOutput.c.
use termux_x11_extra.Base.{◌≡◌, refl, true, false, [], ◌∷◌, none, some}
use termux_x11_extra.Base.Int.{pos, negsuc}
use termux_x11_extra.Buffer.Create.{System}
use termux_x11_extra.Access.Import.{ImportRequest, Peer, pixmap_from_fds}
use termux_x11_extra.Buffer.{
  other_format, got, hardware_buffer, LorieBuffer, Locking, hardware, b8g8r8a8, lock,
}
use termux_x11_extra.Channel.Link.{remove_buffer}
use termux_x11_extra.Access.{prepare_access, finish_access, destroy_pixmap}
use termux_x11_extra.Access.Balance.{idle, IsIdleAgain, finish_access-prepare_access}

abbrev picture : LorieBuffer
picture = record {
  address = 7000;
  refcount = 1;
  desc = record {
    width = pos 2;
    height = pos 2;
    stride = pos 2;
    format = b8g8r8a8;
    type = hardware;
    id = 4;
    buffer = some 8000;
    pixels = none;
  };
  locked = false;
  locked_data = none;
  fd = negsuc 0;
  size = 0;
  offset = 0;
  texture = 0;
  image = none;
}

abbrev granted : Locking
granted = record { ret = pos 0; address = some 9000 }

abbrev denied : Locking
denied = record { ret = negsuc 21; address = none }

-- The lock of the hardware buffer fails: the shared lock stays held, and the buffer counts as locked,
-- so the next access fails too.
first_failure : (prepare_access denied true (idle picture none false none 0)).pixmap.held ≡ 1
unfolding prepare_access
first_failure = refl

second_failure :
    (prepare_access granted true
      (prepare_access denied true (idle picture none false none 0)).pixmap).done
    ≡ false
unfolding prepare_access lock
second_failure = refl

-- The pixmap goes, and the activity is told of its buffer.
gone :
    (destroy_pixmap true true
      (pos 0)
      (record { conn = some 7; registered = 4 ∷ 2 ∷ [] })
      (idle picture none false none 0)).messages
    ≡ remove_buffer 4 ∷ []
unfolding destroy_pixmap
gone = refl

finish_access-prepare_access_example :
    let r = prepare_access granted true (idle picture none false none 0) in
    let after = finish_access (pos 0) true r.pixmap in
    IsIdleAgain picture none 0 after
    × (r.pixmap.pointer ≡ some 9000)
    × (after.pointer ≡ r.pixmap.pointer)
unfolding prepare_access lock
finish_access-prepare_access_example =
    finish_access-prepare_access granted (pos 0) true picture none false none 0 refl refl

-- A system whose calls succeed.
abbrev system : System
system = record {
  page_size = 4096;
  shared_memory = λ size. pos 30;
  memfd = pos 31;
  ashmem = pos 32;
  set_name = pos 0;
  set_size = λ size. pos 0;
  dup = λ fd. elim fd [ pos n ↦ pos 40 | negsuc n ↦ negsuc 0 ];
  mmap = λ fd size offset. some 5000;
  pixels = λ size. some 6000;
  block = some 7000;
  new_hardware = λ width height format. some 8000;
  describe = λ h. record { width = pos 2; height = pos 2; stride = pos 4; format = b8g8r8a8 };
  lock_status = pos 0;
  lock_address = 9000;
}

abbrev peer : Peer
peer = record {
  has_pixmap = true;
  has_priv = true;
  has_stat = true;
  is_socket = true;
  is_written = true;
  ret = pos 0;
  received = some 8000;
}

abbrev import_request : ImportRequest
import_request = record {
  num_fds = 1;
  fd = pos 9;
  width = 2;
  height = 2;
  stride = 16;
  offset = 0;
  modifier = 1255;
}

-- A received buffer of another format is not given back.
abbrev odd_system : System
odd_system = record system {
  describe =
      λ h. record { width = pos 2; height = pos 2; stride = pos 4; format = other_format 43 };
}

lost : (pixmap_from_fds odd_system peer 0 import_request).log ≡ got (hardware_buffer 8000) ∷ []
unfolding pixmap_from_fds
lost = refl
