-- ===== src/Screen/Arrival.antt =====
-- A window of the activity that arrives at the screen of app/src/main/cpp/lorie/InitOutput.c, in a concrete
-- run.
use termux_x11_extra.Base.{ℕ, ◌+◌, ◌≡◌, refl, true, false, [], ◌∷◌, none, some, arith, length}
use termux_x11_extra.Base.Int.{pos}
use termux_x11_extra.Channel.Dispatch.{Channel, handle_events}
use termux_x11_extra.Channel.Examples.{numbers, size, host, keyboard, pointers}
use termux_x11_extra.Activity.Send.{send_window_change, send_calls}
use termux_x11_extra.Activity.Serve.{serve_all}
use termux_x11_extra.Activity.Examples.{layout, tables, layout-IsAbi, tables-IsLibrary}
use termux_x11_extra.Buffer.Create.{allocate_own}
use termux_x11_extra.Screen.Runs.{CanResize}
use termux_x11_extra.Screen.Configure.{asks_resize, named}
use termux_x11_extra.Screen.Window.{window_of, run_screen, HasSize, send_window_change-HasSize}
use termux_x11_extra.Screen.Examples.{display, to_pixmap, randr, display-IsShown}

abbrev channel : Channel ℕ
channel = record {
  pointers = pointers;
  keyboard = keyboard;
  clipboard = record { enabled = false; cached = none; pending = []; selections = [] };
}

new_size-CanResize :
    asks_resize randr
        (window_of 800 600 60 (65 ∷ []))
        (named randr (window_of 800 600 60 (65 ∷ [])) display).settings
      ≡ true
    → CanResize (to_pixmap 2) 800 600 (named randr (window_of 800 600 60 (65 ∷ [])) display)
unfolding allocate_own
new_size-CanResize asked = (refl, refl, refl, tt, (1, refl, refl, refl))

send_window_change-HasSize_example :
    let s =
      send_calls layout tables
        (send_window_change (pos 800) (pos 600) (pos 60) (some (65 ∷ [])) ∷ []) in
    let (c', actions) = handle_events numbers size host (serve_all layout (length s) s).0 channel in
    HasSize 800 600 60 (run_screen randr (λ i. to_pixmap (i + 2)) 0 actions display)
send_window_change-HasSize_example =
    send_window_change-HasSize layout tables numbers size host channel randr
      (λ i. to_pixmap (i + 2)) display 800 600 60 (65 ∷ []) layout-IsAbi tables-IsLibrary
      (omega arith, omega arith) (omega arith, omega arith) (omega arith) (omega arith)
      (omega arith) refl (refl, new_size-CanResize) display-IsShown (omega arith, refl)
