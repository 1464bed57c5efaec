-- ===== src/Activity/Examples.antt =====
-- What the activity sends, app/src/main/cpp/lorie/activity.c, at a concrete layout of the structs, with
-- numbers in the place of floats.
use termux_x11_extra.Base.{
  leb, inr, ℕ, ◌≡◌, refl, Bool, true, false, List, [], ◌∷◌, ◌++◌, Option, none, some, ◌==◌,
  if◌then◌else◌, arith, ltb, if-true, length, length-append, All,
}
use termux_x11_extra.Base.Int.{ℤ, pos, negsuc}
use termux_x11_extra.Text.{Bytes, utf8_to_ucs4}
use termux_x11_extra.Text.Encoding.{encode, utf8_to_ucs4-encode}
use termux_x11_extra.Channel.Dispatch.{screen_size, touch, key, clipboard_send, clipboard_announce}
use termux_x11_extra.Activity.{
  EventHeader, screen_size_head, touch_head, mouse_head, key_head, stylus_head, stylus_enable_head,
  unicode_head, clipboard_enable_head, clipboard_announce_head, clipboard_send_head, gamepad_head,
  Abi, IsAbi,
}
use termux_x11_extra.Activity.Send.{
  SendCall, send_clipboard_announce, send_clipboard_event, send_window_change, send_touch_event,
  send_key_event, Wide, invalid, wide, Tables, send_calls,
}
use termux_x11_extra.Activity.Serve.{serve_all}
use termux_x11_extra.Activity.Arrival.{meanings, serve_all-send_calls}
use termux_x11_extra.Activity.Whole.{IsCharacter, IsJava, IsPrompt, IsLibrary}
use termux_x11_extra.Activity.Typed.{IsUtf8}

abbrev flag : Bool → ℕ
flag b = if b then 1 else 0

abbrev sign : ℤ → ℕ
sign (pos n) = 0
sign (negsuc n) = 1

abbrev size_of : ℤ → ℕ
size_of (pos n) = n
size_of (negsuc n) = n

abbrev of_sign : ℕ → ℕ → ℤ
of_sign s n = if s == 0 then pos n else negsuc n

abbrev struct : ℕ → ℕ → ℕ → ℕ → ℕ → Bytes
struct tag a b c d = tag ∷ a ∷ b ∷ c ∷ d ∷ 0 ∷ 0 ∷ 0 ∷ 0 ∷ 0 ∷ 0 ∷ 0 ∷ 0 ∷ []

abbrev write_struct : EventHeader ℕ → Bytes
write_struct (screen_size_head width height framerate n) = struct 4 width height framerate n
write_struct (touch_head e) = struct 5 e.type e.id e.x e.y
write_struct (mouse_head e) =
    6 ∷ e.x ∷ e.y ∷ e.detail ∷ flag e.down ∷ flag e.is_relative ∷ 0 ∷ 0 ∷ 0 ∷ 0 ∷ 0 ∷ 0 ∷ 0 ∷ []
write_struct (key_head k down) = struct 7 k (flag down) 0 0
write_struct (stylus_head e) =
    8
    ∷ e.x
    ∷ e.y
    ∷ e.pressure
    ∷ sign e.tilt_x
    ∷ size_of e.tilt_x
    ∷ sign e.tilt_y
    ∷ size_of e.tilt_y
    ∷ sign e.orientation
    ∷ size_of e.orientation
    ∷ e.buttons
    ∷ flag e.is_eraser
    ∷ flag e.is_mouse
    ∷ []
write_struct (stylus_enable_head enable) = struct 9 (flag enable) 0 0 0
write_struct (unicode_head code) = struct 10 code 0 0 0
write_struct (clipboard_enable_head enable) = struct 11 (flag enable) 0 0 0
write_struct clipboard_announce_head = struct 12 0 0 0 0
write_struct (clipboard_send_head count) = struct 14 count 0 0 0
write_struct (gamepad_head button pressed x y axis) =
    15
    ∷ button
    ∷ flag pressed
    ∷ sign x
    ∷ size_of x
    ∷ sign y
    ∷ size_of y
    ∷ axis
    ∷ 0
    ∷ 0
    ∷ 0
    ∷ 0
    ∷ 0
    ∷ []

abbrev read_struct : Bytes → EventHeader ℕ
read_struct (tag ∷ a ∷ b ∷ c ∷ d ∷ e ∷ f ∷ g ∷ h ∷ i ∷ j ∷ k ∷ l ∷ s) =
    if tag == 4
    then screen_size_head a b c d
    else if tag == 5
    then touch_head (record { type = a; id = b; x = c; y = d })
    else if tag == 6
    then mouse_head (record { x = a; y = b; detail = c; down = d == 1; is_relative = e == 1 })
    else if tag == 7
    then key_head a (b == 1)
    else if tag == 8
    then stylus_head (record {
      x = a;
      y = b;
      pressure = c;
      tilt_x = of_sign d e;
      tilt_y = of_sign f g;
      orientation = of_sign h i;
      buttons = j;
      is_eraser = k == 1;
      is_mouse = l == 1;
    })
    else if tag == 9
    then stylus_enable_head (a == 1)
    else if tag == 10
    then unicode_head a
    else if tag == 11
    then clipboard_enable_head (a == 1)
    else if tag == 12
    then clipboard_announce_head
    else if tag == 14
    then clipboard_send_head a
    else gamepad_head a (b == 1) (of_sign c d) (of_sign e f) g
read_struct s = clipboard_announce_head

abbrev pub layout : Abi ℕ
layout = record {
  size = 13;
  encode = write_struct;
  decode = read_struct;
  to_double = size_of;
  truncated = λ x k. pos x;
  arrived = λ n. if leb n 4096 then n else 4096;
  room = 4096;
}

read-flag : (b : Bool) → (flag b == 1) ≡ b
read-flag true = refl
read-flag false = refl

read-sign : (z : ℤ) → of_sign (sign z) (size_of z) ≡ z
read-sign (pos n) = refl
read-sign (negsuc n) = refl

read_struct-write_struct : (h : EventHeader ℕ) → read_struct (write_struct h) ≡ h
read_struct-write_struct (screen_size_head width height framerate n) = refl
read_struct-write_struct (touch_head e) = refl
read_struct-write_struct (mouse_head e) = rw (read-flag e.down, read-flag e.is_relative) refl
read_struct-write_struct (key_head k down) = rw (read-flag down) refl
read_struct-write_struct (stylus_head e) =
    rw
      (
        read-sign e.tilt_x,
        read-sign e.tilt_y,
        read-sign e.orientation,
        read-flag e.is_eraser,
        read-flag e.is_mouse,
      )
      refl
read_struct-write_struct (stylus_enable_head enable) = rw (read-flag enable) refl
read_struct-write_struct (unicode_head code) = refl
read_struct-write_struct (clipboard_enable_head enable) = rw (read-flag enable) refl
read_struct-write_struct clipboard_announce_head = refl
read_struct-write_struct (clipboard_send_head count) = refl
read_struct-write_struct (gamepad_head button pressed x y axis) =
    rw (read-flag pressed, read-sign x, read-sign y) refl

struct-length : (h : EventHeader ℕ) → length (write_struct h) ≡ 13
struct-length (screen_size_head width height framerate n) = refl
struct-length (touch_head e) = refl
struct-length (mouse_head e) = refl
struct-length (key_head k down) = refl
struct-length (stylus_head e) = refl
struct-length (stylus_enable_head enable) = refl
struct-length (unicode_head code) = refl
struct-length (clipboard_enable_head enable) = refl
struct-length clipboard_announce_head = refl
struct-length (clipboard_send_head count) = refl
struct-length (gamepad_head button pressed x y axis) = refl

pub layout-IsAbi : IsAbi layout
layout-IsAbi = (
  omega arith,
  struct-length,
  λ h range. read_struct-write_struct h,
  λ n small. ground (arith, small),
)

-- A mbrtowc made of the decoder of the clipboard.
abbrev character : Option (ℕ × ℕ) → Wide
character none = invalid
character (some (n, code)) = if ltb code 0x110000 then wide code n else invalid

abbrev pub tables : Tables
tables = record {
  mbrtowc = λ p. character (utf8_to_ucs4 p (length p));
  linux_keycode = λ k. if k == 4 then pos 1 else pos 0;
}

character-small : (o : Option (ℕ × ℕ)) → IsCharacter (character o)
character-small none = tt
character-small (some (n, code)) = ground arith

pub tables-IsLibrary : IsLibrary tables
tables-IsLibrary p = character-small (utf8_to_ucs4 p (length p))

pub tables-IsUtf8 : IsUtf8 tables
tables-IsUtf8 cp rest scalar positive =
    rw
      (utf8_to_ucs4-encode cp rest (length (encode cp ++ rest)) scalar
        (omega (arith, length-append (encode cp) rest)))
      (if-true (ltb cp 0x110000) _ _ (ground arith))

-- The back key, a touch, a window of the size 70000 x 50 with a name, and a text for the clipboard.
abbrev calls : List (SendCall ℕ)
calls =
    send_key_event (pos 0) 4 true
    ∷ send_touch_event (pos 18) (negsuc 0) (pos 5) (pos 6)
    ∷ send_window_change (pos 70000) (pos 50) (pos 60) (some (65 ∷ 66 ∷ []))
    ∷ send_clipboard_event (some (72 ∷ 105 ∷ []))
    ∷ send_clipboard_announce
    ∷ []

calls-IsJava : All IsJava calls
calls-IsJava = (inr (omega arith), (tt, (omega arith, (omega arith, (tt, tt)))))

calls-ArePrompt : All (IsPrompt layout) calls
calls-ArePrompt = (tt, (tt, (omega arith, (omega arith, (tt, tt)))))

-- Negative and large numbers are cut.
calls-meanings :
    meanings layout tables calls
    ≡ key 9 true
      ∷ touch (record { type = 18; id = 65535; x = 5; y = 6 })
      ∷ screen_size 4464 50 60 (65 ∷ 66 ∷ [])
      ∷ clipboard_send (72 ∷ 105 ∷ [])
      ∷ clipboard_announce
      ∷ []
unfolding meanings
calls-meanings = refl

serve_all-send_calls_example :
    let s = send_calls layout tables calls in
    serve_all layout (length s) s ≡ (meanings layout tables calls, [])
serve_all-send_calls_example =
    serve_all-send_calls layout tables calls layout-IsAbi tables-IsLibrary calls-IsJava
      calls-ArePrompt
