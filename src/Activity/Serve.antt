-- ===== src/Activity/Serve.antt =====
-- The loop of handleLorieEvents of app/src/main/cpp/lorie/cmdentrypoint.c over the bytes of the socket.
use termux_x11_extra.Base.{
  ℕ, zero, suc, List, [], ◌∷◌, ◌++◌, ltb, ◌==◌, if◌then◌else◌, length, drop,
}
use termux_x11_extra.Base.Int.{pos}
use termux_x11_extra.Text.{Bytes}
use termux_x11_extra.Channel.Pointer.{StylusEvent}
use termux_x11_extra.Channel.Dispatch.{
  ActivityEvent, screen_size, touch, stylus, stylus_enable, mouse_event, key, unicode,
  clipboard_enable, clipboard_announce, clipboard_send, other,
}
use termux_x11_extra.Activity.{
  StylusStruct, EventHeader, screen_size_head, touch_head, mouse_head, key_head, stylus_head,
  stylus_enable_head, unicode_head, clipboard_enable_head, clipboard_announce_head,
  clipboard_send_head, gamepad_head, Abi,
}

abbrev pub take {ℓ} : {A : Type ℓ} → ℕ → List A → List A
take zero xs = []
take (suc n) [] = []
take (suc n) (x ∷ xs) = x ∷ take n xs

-- A read of n bytes into a block of calloc: what is not there stays 0.
abbrev pub read_filled : ℕ → Bytes → Bytes
read_filled zero s = []
read_filled (suc n) [] = 0 ∷ read_filled n []
read_filled (suc n) (b ∷ s) = b ∷ read_filled n s

module _ {V : Type 0} (abi : Abi V) where
  -- The fields of the struct as the doubles that the mask is given.
  abbrev pub stylus_event : StylusStruct V → StylusEvent V
  stylus_event s = record {
    x = s.x;
    y = s.y;
    pressure = abi.to_double (pos s.pressure);
    tilt_x = abi.to_double s.tilt_x;
    tilt_y = abi.to_double s.tilt_y;
    orientation = abi.to_double s.orientation;
    buttons = s.buttons;
    is_eraser = s.is_eraser;
    is_mouse = s.is_mouse;
  }

  -- What is read behind a struct, by one read that may find less than n bytes and whose result is not
  -- tested; and what is left.
  abbrev pub read_payload : ℕ → Bytes → Bytes × Bytes
  read_payload n s = (read_filled n (take (abi.arrived n) s), drop (abi.arrived n) s)

  -- The switch: what the event is, with what is read behind the struct, and the bytes after it. The text
  -- of the clipboard is read from conn_fd, which is the descriptor of the call.
  unfoldable pub read_event : EventHeader V → Bytes → ActivityEvent V × Bytes
  read_event (screen_size_head width height framerate name_size) s =
      let (name, left) = read_payload name_size s in (screen_size width height framerate name, left)
  read_event (touch_head e) s = (touch e, s)
  read_event (mouse_head e) s = (mouse_event e, s)
  read_event (key_head k down) s = (key k down, s)
  read_event (stylus_head e) s = (stylus (stylus_event e), s)
  read_event (stylus_enable_head enable) s = (stylus_enable enable, s)
  read_event (unicode_head code) s = (unicode code, s)
  read_event (clipboard_enable_head enable) s = (clipboard_enable enable, s)
  read_event clipboard_announce_head s = (clipboard_announce, s)
  read_event (clipboard_send_head count) s =
      let (text, left) = read_payload count s in (clipboard_send text, left)
  read_event (gamepad_head button pressed x y axis) s = (other, s)

  -- From `again` on: the events of the call, and what it leaves in the socket. A struct that is cut
  -- short is read and dropped.
  unfoldable pub read_events : ℕ → Bytes → List (ActivityEvent V) × Bytes
  unfolding read_event
  read_events zero s = ([], s)
  read_events (suc fuel) s =
      let (e, left) = read_event (abi.decode (take abi.size s)) (drop abi.size s) in
      let (more, rest) = read_events fuel left in
      if length (take abi.size s) == abi.size
      then if ltb abi.size (length left) then (e ∷ more, rest) else (e ∷ [], left)
      else ([], drop abi.size s)

  -- A call of handleLorieEvents. Each round but the first finds a byte at least.
  abbrev pub serve : Bytes → List (ActivityEvent V) × Bytes
  serve s = read_events (length s) s

  -- The input thread calls the handler as long as the socket has something to read.
  unfoldable pub serve_all : ℕ → Bytes → List (ActivityEvent V) × Bytes
  unfolding read_events
  serve_all n [] = ([], [])
  serve_all zero (b ∷ s) = ([], b ∷ s)
  serve_all (suc n) (b ∷ s) =
      let (es, left) = serve (b ∷ s) in let (more, rest) = serve_all n left in (es ++ more, rest)
