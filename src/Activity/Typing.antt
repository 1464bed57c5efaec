-- ===== src/Activity/Typing.antt =====
-- A text that the activity sends, app/src/main/cpp/lorie/activity.c, and the keys for it, in a concrete run.
use termux_x11_extra.Base.{ℕ, false, [], ◌∷◌, none, some, arith, inl, length}
use termux_x11_extra.Text.Encoding.{encode_all}
use termux_x11_extra.Keyboard.Events.{press_keysym}
use termux_x11_extra.Channel.Dispatch.{Channel, type_unicode, handle_events}
use termux_x11_extra.Channel.Examples.{numbers, size, host, keyboard, pointers, keyboard-IsPaired}
use termux_x11_extra.Activity.Send.{send_text_event, send_calls}
use termux_x11_extra.Activity.Serve.{serve_all}
use termux_x11_extra.Activity.Examples.{
  layout, tables, layout-IsAbi, tables-IsLibrary, tables-IsUtf8,
}
use termux_x11_extra.Activity.Keys.{AreTypable, AreBalanced, send_text_event-AreBalanced}

abbrev pub channel : Channel ℕ
channel = record {
  pointers = pointers;
  keyboard = keyboard;
  clipboard = record { enabled = false; cached = none; pending = []; selections = [] };
}

letters-AreTypable : AreTypable host (97 ∷ 97 ∷ []) keyboard
unfolding press_keysym type_unicode
letters-AreTypable = (
  λ e. omega (arith, e),
  λ e. omega (arith, e),
  omega arith,
  (λ e. omega (arith, e), λ e. omega (arith, e), omega arith, tt),
)

send_text_event-AreBalanced_example :
    let s = send_calls layout tables (send_text_event (some (encode_all (97 ∷ 97 ∷ []))) ∷ []) in
    AreBalanced 9 (handle_events numbers size host (serve_all layout (length s) s).0 channel)
send_text_event-AreBalanced_example =
    send_text_event-AreBalanced numbers size host layout tables (97 ∷ 97 ∷ []) channel 9
      layout-IsAbi tables-IsLibrary tables-IsUtf8
      ((inl (omega arith), omega arith), ((inl (omega arith), omega arith), tt)) keyboard-IsPaired
      letters-AreTypable
