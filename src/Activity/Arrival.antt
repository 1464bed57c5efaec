-- ===== src/Activity/Arrival.antt =====
-- The calls of app/src/main/cpp/lorie/activity.c and the events of handleLorieEvents in
-- app/src/main/cpp/lorie/cmdentrypoint.c: each call arrives, its numbers cut to the width of the struct.
use mathlib.Core.List.{append_assoc, map-append}
use termux_x11_extra.Base.{
  ℕ, ◌≡◌, refl, ap, ◌∙◌, List, [], ◌∷◌, ◌++◌, none, some, arith, if◌then◌else◌, length, map, All,
  All-append,
}
use termux_x11_extra.Base.Int.{is_zero}
use termux_x11_extra.Buffer.Receive.{is_minus_one}
use termux_x11_extra.Channel.Dispatch.{
  ActivityEvent, screen_size, touch, stylus, stylus_enable, mouse_event, key, unicode,
  clipboard_enable, clipboard_announce, clipboard_send, other,
}
use termux_x11_extra.Activity.{Abi, IsAbi, to_unsigned}
use termux_x11_extra.Activity.Send.{
  SendCall, set_clipboard_sync_enabled, send_clipboard_announce, send_clipboard_event,
  send_window_change, send_mouse_event, send_touch_event, send_stylus_event, request_stylus_enabled,
  send_key_event, send_text_event, send_gamepad_event, Tables, Frame, text_name, plus_eight,
  stylus_struct, text_characters, text_frames, frames, wire, send_calls,
}
use termux_x11_extra.Activity.Whole.{IsJava, IsPrompt, IsLibrary, frames-IsWhole}
use termux_x11_extra.Activity.Serve.{stylus_event, serve_all}
use termux_x11_extra.Activity.Transfer.{IsWhole, event_of, serve_all-wire, wire-length}

module _ {V : Type 0} (abi : Abi V) (t : Tables) where
  -- The events that the server should see of a call.
  unfoldable pub meaning : SendCall V → List (ActivityEvent V)
  unfolding text_characters
  meaning (set_clipboard_sync_enabled enable) = clipboard_enable enable ∷ []
  meaning send_clipboard_announce = clipboard_announce ∷ []
  meaning (send_clipboard_event none) = []
  meaning (send_clipboard_event (some text)) = clipboard_send text ∷ []
  meaning (send_window_change width height framerate name) =
      screen_size (to_unsigned 16 width) (to_unsigned 16 height) (to_unsigned 16 framerate)
        (text_name width height name)
      ∷ []
  meaning (send_mouse_event x y which_button button_down relative) =
      mouse_event (record {
        x = x;
        y = y;
        detail = to_unsigned 8 which_button;
        down = button_down;
        is_relative = relative;
      })
      ∷ []
  meaning (send_touch_event action id x y) =
      if is_minus_one action
      then []
      else touch (record {
        type = to_unsigned 16 action;
        id = to_unsigned 16 id;
        x = to_unsigned 16 x;
        y = to_unsigned 16 y;
      })
        ∷ []
  meaning (send_stylus_event c) = stylus (stylus_event abi (stylus_struct c)) ∷ []
  meaning (request_stylus_enabled enabled) = stylus_enable enabled ∷ []
  meaning (send_key_event scan_code key_code key_down) =
      let code = if is_zero scan_code then t.linux_keycode key_code else scan_code in
      key (to_unsigned 16 (plus_eight code)) key_down ∷ []
  meaning (send_text_event none) = []
  meaning (send_text_event (some text)) = map unicode (text_characters t (length text) text)
  meaning (send_gamepad_event button pressed x y axis) = other ∷ []

  unfoldable pub meanings : List (SendCall V) → List (ActivityEvent V)
  unfolding meaning
  meanings [] = []
  meanings (c ∷ cs) = meaning c ++ meanings cs

  text_frames-event_of : (cs : List ℕ) → map (event_of abi) (text_frames cs) ≡ map unicode cs
  unfolding event_of
  text_frames-event_of [] = refl
  text_frames-event_of (c ∷ cs) = ap (λ l. unicode c ∷ l) (text_frames-event_of cs)

  frames-event_of : (c : SendCall V) → map (event_of abi) (frames abi t c) ≡ meaning c
  unfolding frames event_of meaning
  frames-event_of (set_clipboard_sync_enabled enable) = refl
  frames-event_of send_clipboard_announce = refl
  frames-event_of (send_clipboard_event none) = refl
  frames-event_of (send_clipboard_event (some text)) = refl
  frames-event_of (send_window_change width height framerate name) = refl
  frames-event_of (send_mouse_event x y which_button button_down relative) = refl
  frames-event_of (send_touch_event action id x y) = ground arith
  frames-event_of (send_stylus_event c) = refl
  frames-event_of (request_stylus_enabled enabled) = refl
  frames-event_of (send_key_event scan_code key_code key_down) = refl
  frames-event_of (send_text_event none) = refl
  frames-event_of (send_text_event (some text)) =
      text_frames-event_of (text_characters t (length text) text)
  frames-event_of (send_gamepad_event button pressed x y axis) = refl

  all_frames : List (SendCall V) → List (Frame V)
  all_frames [] = []
  all_frames (c ∷ cs) = frames abi t c ++ all_frames cs

  wire-append : (fs gs : List (Frame V)) → wire abi (fs ++ gs) ≡ wire abi fs ++ wire abi gs
  wire-append [] gs = refl
  wire-append ((h, p) ∷ fs) gs =
      rw
        (
          wire-append fs gs,
          append_assoc (abi.encode h) (p ++ wire abi fs) (wire abi gs),
          append_assoc p (wire abi fs) (wire abi gs),
        )
        refl

  send_calls-wire : (cs : List (SendCall V)) → send_calls abi t cs ≡ wire abi (all_frames cs)
  unfolding send_calls all_frames
  send_calls-wire [] = refl
  send_calls-wire (c ∷ cs) =
      rw (send_calls-wire cs, wire-append (frames abi t c) (all_frames cs)) refl

  all_frames-IsWhole :
      (library : IsLibrary t) (cs : List (SendCall V))
      → IsAbi abi
      → All IsJava cs
      → All (IsPrompt abi) cs
      → All (IsWhole abi) (all_frames cs)
  unfolding all_frames
  all_frames-IsWhole library [] is java prompt = tt
  all_frames-IsWhole library (c ∷ cs) is (j, js) (p, ps) =
      All-append (IsWhole abi) (frames abi t c) (all_frames cs)
        (frames-IsWhole abi t library c is j p) (all_frames-IsWhole library cs is js ps)

  all_frames-meanings : (cs : List (SendCall V)) → map (event_of abi) (all_frames cs) ≡ meanings cs
  unfolding all_frames meanings
  all_frames-meanings [] = refl
  all_frames-meanings (c ∷ cs) =
      rw
        (
          map-append (event_of abi) (frames abi t c) (all_frames cs),
          frames-event_of c,
          all_frames-meanings cs,
        )
        refl

  -- Whatever calls the activity makes with a connection, where each text fits the buffer of the socket,
  -- so that one read finds it whole, and each key code without a scan code is inside the table: the server
  -- reads their events, in order, each with its numbers cut to the width of the struct, and nothing is
  -- left in the socket, where it calls handleLorieEvents as often as there are bytes at most.
  pub serve_all-send_calls :
      (cs : List (SendCall V))
      → IsAbi abi
      → IsLibrary t
      → All IsJava cs
      → All (IsPrompt abi) cs
      → let s = send_calls abi t cs in serve_all abi (length s) s ≡ (meanings cs, [])
  serve_all-send_calls cs is library java prompt = rw (send_calls-wire cs) (
      serve_all-wire abi is (length (wire abi (all_frames cs))) (all_frames cs)
        (wire-length abi is (all_frames cs)) (all_frames-IsWhole library cs is java prompt)
      ∙ ap (λ es. (es, [])) (all_frames-meanings cs))
