-- ===== src/Buffer/Examples.antt =====
-- Tests of the buffers, and the properties at a concrete buffer and system.
use termux_x11_extra.Base.{◌≡◌, refl, true, false, [], ◌∷◌, ◌++◌, ◌+◌, none, some, arith}
use termux_x11_extra.Base.Int.{pos, negsuc}
use termux_x11_extra.Buffer.{
  regular, file_descriptor, hardware, b8g8r8a8, LorieBuffer, descriptor, mapping, memory,
  hardware_buffer, got, release,
}
use termux_x11_extra.Buffer.Create.{System, align_to_page, allocate_own}
use termux_x11_extra.Buffer.Convert.{convert}
use termux_x11_extra.Buffer.Receive.{
  Receiver, set, body, passed_fd, send, receive, owned_output, stale_of, receive-send,
  receive-count,
}
use termux_x11_extra.Buffer.Balance.{at_address, acquired, released, owned}
use termux_x11_extra.Buffer.Ownership.{convert-count}
use termux_x11_extra.Buffer.Lifetime.{life-count}
use termux_x11_extra.Buffer.Sharing.{
  acquiring, releasing, unlocking, use_all, IsOutcome, use_all-IsOutcome,
}

abbrev system : System
system = record {
  page_size = 4096;
  shared_memory = λ size. pos 30;
  memfd = pos 31;
  ashmem = pos 32;
  set_name = pos 0;
  set_size = λ size. pos 0;
  dup = λ fd. pos 40;
  mmap = λ fd size offset. some 5000;
  pixels = λ size. some 6000;
  block = some 7000;
  new_hardware = λ width height format. some 8000;
  describe = λ h. record { width = pos 2; height = pos 3; stride = pos 4; format = b8g8r8a8 };
  lock_status = pos 0;
  lock_address = 9000;
}

four_pages : align_to_page 4096 12289 ≡ 16384
unfolding align_to_page
four_pages = refl

abbrev bitmap : LorieBuffer
bitmap = record {
  address = 7000;
  refcount = 1;
  desc = record {
    width = pos 2;
    height = pos 3;
    stride = pos 2;
    format = b8g8r8a8;
    type = regular;
    id = 0;
    buffer = none;
    pixels = some 6000;
  };
  locked = false;
  locked_data = none;
  fd = negsuc 0;
  size = 0;
  offset = 0;
  texture = 0;
  image = none;
}

bitmap_made : (allocate_own system 0 (pos 2) (pos 3) b8g8r8a8 regular).made ≡ some bitmap
unfolding allocate_own
bitmap_made = refl

region_log :
    (allocate_own system 0 (pos 2) (pos 3) b8g8r8a8 file_descriptor).log
    ≡ got (descriptor 30) ∷ got (mapping 5000) ∷ got (memory 7000) ∷ []
unfolding allocate_own
region_log = refl

convert-count_example :
    let (b', log) = convert system bitmap file_descriptor b8g8r8a8 in
    acquired (memory 6000) log + owned (memory 6000) bitmap
    ≡ released (memory 6000) log + owned (memory 6000) b'
convert-count_example =
    convert-count (memory 6000) system bitmap file_descriptor b8g8r8a8 (λ _. refl)

life-count_example :
    let (b', converted) = convert system bitmap hardware b8g8r8a8 in
    let (left, freed) = release true true b' in
    let log =
      (allocate_own system 0 (pos 2) (pos 3) b8g8r8a8 regular).log ++ (converted ++ freed) in
    (left ≡ none) × (acquired (memory 6000) log ≡ released (memory 6000) log)
life-count_example =
    life-count (memory 6000) system system 0 (pos 2) (pos 3) b8g8r8a8 regular bitmap hardware
      b8g8r8a8 true true (λ _. refl) (λ _. refl) refl bitmap_made

use_all-IsOutcome_example : IsOutcome (memory 6000) bitmap 0 (
    use_all (acquiring ∷ releasing true true ∷ unlocking (pos 0) ∷ releasing true true ∷ []) bitmap)
use_all-IsOutcome_example =
    use_all-IsOutcome (memory 6000)
      (acquiring ∷ releasing true true ∷ unlocking (pos 0) ∷ releasing true true ∷ []) bitmap 0 refl
      (omega arith)

abbrev receiver : Receiver
receiver = record {
  receive_fd = λ fd. pos 50;
  mmap = λ fd size. some 5100;
  receive_hardware = λ h. some 8100;
  block = some 7100;
}

abbrev shared : LorieBuffer
shared = record bitmap {
  fd = pos 30;
  locked = true;
  locked_data = some 5000;
  desc = record bitmap.desc { type = file_descriptor; pixels = some 5000 };
}

receive-send_example : receive receiver (pos 4) true (send (pos 3) shared) ≡ (
  set (
      some (record shared {
        address = 7100;
        fd = pos 50;
        image = none;
        desc = record shared.desc { pixels = some 5100 };
      })),
  got (descriptor 50) ∷ got (mapping 5100) ∷ got (memory 7100) ∷ [],
)
receive-send_example = receive-send receiver 3 4 shared 50 7100 5100 refl refl refl refl

receive-count_example :
    let (output, log) = receive receiver (pos 4) true (body shared ∷ passed_fd (pos 30) ∷ []) in
    acquired (mapping 5100) log
      + at_address
          (mapping 5100)
          hardware_buffer
          (stale_of receiver (pos 4) (body shared ∷ passed_fd (pos 30) ∷ []))
    ≡ released (mapping 5100) log + owned_output (mapping 5100) output
receive-count_example =
    receive-count (mapping 5100) receiver (pos 4) (body shared ∷ passed_fd (pos 30) ∷ []) 7100 refl
      refl
