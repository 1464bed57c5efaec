-- ===== src/Activity/Send.antt =====
-- The functions of app/src/main/cpp/lorie/activity.c that write to the socket: setClipboardSyncEnabled
-- to sendGamepadEvent.
use termux_x11_extra.Base.{
  ℕ, zero, suc, ◌+◌, ◌%◌, ◌^◌, Bool, true, false, ◌&&◌, ◌||◌, not, List, [], ◌∷◌, ◌++◌, Option,
  none, some, ◌==◌, if◌then◌else◌, length, drop,
}
use termux_x11_extra.Base.Int.{ℤ, pos, negsuc, is_pos, is_zero, sub_ℕ}
use termux_x11_extra.Text.{Bytes}
use termux_x11_extra.Buffer.Receive.{is_minus_one}
use termux_x11_extra.Channel.Touch.{TouchEvent}
use termux_x11_extra.Channel.Pointer.{MouseEvent}
use termux_x11_extra.Activity.{
  StylusStruct, EventHeader, screen_size_head, touch_head, mouse_head, key_head, stylus_head,
  stylus_enable_head, unicode_head, clipboard_enable_head, clipboard_announce_head,
  clipboard_send_head, gamepad_head, Abi, to_unsigned, to_signed,
}

-- The arguments of sendStylusEvent.
pub record StylusCall (V : Type 0) : Type 0 where
  pub x : V
  pub y : V
  pub pressure : ℤ
  pub tilt_x : ℤ
  pub tilt_y : ℤ
  pub orientation : ℤ
  pub buttons : ℤ
  pub is_eraser : Bool
  pub is_mouse : Bool

-- A call from Java with its arguments; an array or a string is none for null. The name is the bytes
-- of GetStringUTFChars up to its 0.
pub data SendCall (V : Type 0) : Type 0 where
  set_clipboard_sync_enabled : Bool → SendCall V
  send_clipboard_announce : SendCall V
  send_clipboard_event : Option Bytes → SendCall V
  send_window_change : ℤ → ℤ → ℤ → Option Bytes → SendCall V
  send_mouse_event : V → V → ℤ → Bool → Bool → SendCall V
  send_touch_event : ℤ → ℤ → ℤ → ℤ → SendCall V
  send_stylus_event : StylusCall V → SendCall V
  request_stylus_enabled : Bool → SendCall V
  send_key_event : ℤ → ℕ → Bool → SendCall V
  send_text_event : Option Bytes → SendCall V
  send_gamepad_event : ℤ → Bool → V → V → ℤ → SendCall V

-- What mbrtowc makes of the bytes from a place on: an error or an incomplete sequence, or the
-- character with its length.
pub data Wide : Type 0 where
  invalid : Wide
  wide : ℕ → ℕ → Wide

-- The C library, and the table android_to_linux_keycode: 304 entries, and any value for a read outside them.
pub record Tables : Type 0 where
  pub mbrtowc : Bytes → Wide
  pub linux_keycode : ℕ → ℤ

-- A struct and what is written behind it.
abbrev pub Frame : Type 0 → Type 0
Frame V = EventHeader V × Bytes

abbrev pub text_name : ℤ → ℤ → Option Bytes → Bytes
text_name width height none = []
text_name width height (some name) = if not (is_pos width) || not (is_pos height) then [] else name

-- code + 8, as an int.
abbrev pub plus_eight : ℤ → ℤ
plus_eight (pos n) = pos (n + 8)
plus_eight (negsuc n) = sub_ℕ 7 n

-- axisID == 2 || axisID == 3, and then axisID == 4 || axisID == 5.
abbrev pub max_value : ℤ → ℕ
max_value (pos n) = if n == 2 || n == 3 then 255 else if n == 4 || n == 5 then 1 else 32767
max_value (negsuc n) = 32767

abbrev pub stylus_struct : {V : Type 0} → StylusCall V → StylusStruct V
stylus_struct c = record {
  x = c.x;
  y = c.y;
  pressure = to_unsigned 16 c.pressure;
  tilt_x = to_signed 8 c.tilt_x;
  tilt_y = to_signed 8 c.tilt_y;
  orientation = to_signed 16 c.orientation;
  buttons = to_unsigned 8 c.buttons;
  is_eraser = c.is_eraser;
  is_mouse = c.is_mouse;
}

-- The loop of sendTextEvent from `p` on: the characters that are sent. A round passes a byte at least,
-- so that the bytes are rounds enough.
unfoldable pub text_characters : Tables → ℕ → Bytes → List ℕ
text_characters t zero p = []
text_characters t (suc fuel) [] = []
text_characters t (suc fuel) (c ∷ p) = if c == 0 then [] else elim (t.mbrtowc (c ∷ p)) [
  | invalid ↦ []
  | wide code n ↦
      let rest = text_characters t fuel (drop n (c ∷ p)) in if n == 0 then [] else code ∷ rest
]

abbrev pub text_frames : {V : Type 0} → List ℕ → List (Frame V)
text_frames [] = []
text_frames (c ∷ cs) = (unicode_head c, []) ∷ text_frames cs

-- The bytes of the frames.
abbrev pub wire : {V : Type 0} → Abi V → List (Frame V) → Bytes
wire abi [] = []
wire abi ((h, payload) ∷ fs) = abi.encode h ++ (payload ++ wire abi fs)

module _ {V : Type 0} (abi : Abi V) (t : Tables) where
  -- What a call writes, with a connection.
  unfoldable pub frames : SendCall V → List (Frame V)
  unfolding text_characters
  frames (set_clipboard_sync_enabled enable) = (clipboard_enable_head enable, []) ∷ []
  frames send_clipboard_announce = (clipboard_announce_head, []) ∷ []
  frames (send_clipboard_event none) = []
  frames (send_clipboard_event (some text)) =
      (clipboard_send_head (length text % 2 ^ 32), text) ∷ []
  frames (send_window_change width height framerate jname) =
      let name = text_name width height jname in
      (
        screen_size_head (to_unsigned 16 width) (to_unsigned 16 height) (to_unsigned 16 framerate)
            (length name),
        name,
      )
      ∷ []
  frames (send_mouse_event x y which_button button_down relative) =
      let e : MouseEvent V = record {
        x = x;
        y = y;
        detail = to_unsigned 8 which_button;
        down = button_down;
        is_relative = relative;
      } in
      (mouse_head e, []) ∷ []
  frames (send_touch_event action id x y) =
      let e : TouchEvent = record {
        type = to_unsigned 16 action;
        id = to_unsigned 16 id;
        x = to_unsigned 16 x;
        y = to_unsigned 16 y;
      } in
      if is_minus_one action then [] else (touch_head e, []) ∷ []
  frames (send_stylus_event c) = (stylus_head (stylus_struct c), []) ∷ []
  frames (request_stylus_enabled enabled) = (stylus_enable_head enabled, []) ∷ []
  frames (send_key_event scan_code key_code key_down) =
      let code = if is_zero scan_code then t.linux_keycode key_code else scan_code in
      (key_head (to_unsigned 16 (plus_eight code)) key_down, []) ∷ []
  frames (send_text_event none) = []
  frames (send_text_event (some text)) = text_frames (text_characters t (length text) text)
  frames (send_gamepad_event button pressed x y axis) =
      let max = max_value axis in
      (
        gamepad_head (to_unsigned 8 button) pressed (to_signed 16 (abi.truncated x max))
            (to_signed 16 (abi.truncated y max)) (to_unsigned 8 axis),
        [],
      )
      ∷ []

  -- Whether a call makes the window reset its input method.
  unfoldable pub resets_ime : Bool → SendCall V → Bool
  resets_ime connected (send_mouse_event x y which_button button_down relative) =
      connected && is_pos which_button
  resets_ime connected (send_stylus_event c) = connected
  resets_ime connected c = false

  -- The functions: `connected` says whether conn_fd is not -1.
  unfoldable pub send_call : Bool → SendCall V → Bytes
  unfolding frames
  send_call connected c = if connected then wire abi (frames c) else []

  unfoldable pub send_calls : List (SendCall V) → Bytes
  unfolding send_call
  send_calls [] = []
  send_calls (c ∷ cs) = send_call true c ++ send_calls cs
