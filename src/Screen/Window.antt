-- ===== src/Screen/Window.antt =====
-- A window of the activity from sendWindowChange of app/src/main/cpp/lorie/activity.c over the socket and
-- handleLorieEvents of app/src/main/cpp/lorie/cmdentrypoint.c to lorieConfigureNotify of
-- app/src/main/cpp/lorie/InitOutput.c.
use mathlib.Core.Path.{subst}
use native.Mathlib.Nat.{mod-eq_of_lt}
use termux_x11_extra.Base.{
  ◌≤◌, ℕ, ◌+◌, ◌++◌, ◌^◌, ◌<◌, ◌≡◌, refl, sym, ap, ◌∙◌, true, false, List, [], ◌∷◌, Option, none,
  some, arith, ◌==◌, length,
}
use termux_x11_extra.Base.Int.{pos}
use termux_x11_extra.Text.{Bytes}
use termux_x11_extra.Vblank.{Notice}
use termux_x11_extra.Buffer.{Log}
use termux_x11_extra.Channel.Link.{Message}
use termux_x11_extra.Channel.{Floats, ScreenSize}
use termux_x11_extra.Channel.Dispatch.{
  ActivityEvent, screen_size, Work, configure, handle_touch_later, announce_clipboard,
  give_clipboard, Action, queue_pointer, queue_key, queue_work, Channel, Host, handle_events,
}
use termux_x11_extra.Activity.{Abi, IsAbi}
use termux_x11_extra.Activity.Send.{SendCall, send_window_change, Tables, send_calls}
use termux_x11_extra.Activity.Serve.{serve_all}
use termux_x11_extra.Activity.Whole.{IsLibrary}
use termux_x11_extra.Activity.Arrival.{meanings, serve_all-send_calls}
use termux_x11_extra.Screen.{Display}
use termux_x11_extra.Screen.Resize.{Resizing, Resized, crash, resized}
use termux_x11_extra.Screen.Shown.{IsShown}
use termux_x11_extra.Screen.Runs.{CanResize}
use termux_x11_extra.Screen.Configure.{
  Randr, WindowChange, rate_of, asks_resize, named, configure_notify, IsTimed, IsConfigured,
  configure_notify-IsConfigured,
}

-- The name that the server's copy of the event has, NULL for the size 0.
abbrev pub name_of : Bytes → Option Bytes
name_of [] = none
name_of (c ∷ name) = some (c ∷ name)

abbrev pub window_of : ℕ → ℕ → ℕ → Bytes → WindowChange
window_of width height framerate name = record {
  width = width;
  height = height;
  framerate = framerate;
  name = name_of name;
}

-- sendConfigureNotify; the other work does not touch the screen.
unfoldable pub work_screen : Randr → Resizing → Work → Display → Resized
unfolding configure_notify
work_screen randr z (configure width height framerate name) d =
    configure_notify randr z (window_of width height framerate name) d
work_screen randr z (handle_touch_later e) d = resized d [] [] []
work_screen randr z announce_clipboard d = resized d [] [] []
work_screen randr z (give_clipboard data_) d = resized d [] [] []

-- What one action of the input thread does to the screen.
abbrev pub action_screen : {V : Type 0} → Randr → Resizing → Action V → Display → Resized
action_screen randr z (queue_pointer e) d = resized d [] [] []
action_screen randr z (queue_key e) d = resized d [] [] []
action_screen randr z (queue_work w) d = work_screen randr z w d

abbrev pub prefixed : List Notice → List Message → Log → Resized → Resized
prefixed notices messages log crash = crash
prefixed notices messages log (resized d more_notices more_messages more) =
    resized d (notices ++ more_notices) (messages ++ more_messages) (log ++ more)

abbrev pub and_then : Resized → (Display → Resized) → Resized
and_then crash k = crash
and_then (resized d notices messages log) k = prefixed notices messages log (k d)

-- The actions in their order; `z i` is what the system answers to the action `i`.
abbrev pub run_screen :
    {V : Type 0} → Randr → (ℕ → Resizing) → ℕ → List (Action V) → Display → Resized
run_screen randr z i [] d = resized d [] [] []
run_screen randr z i (a ∷ actions) d =
    and_then (action_screen randr (z i) a d) (run_screen randr z (i + 1) actions)

-- The screen is shown, and has the size and the rate.
abbrev pub HasSize : ℕ → ℕ → ℕ → Resized → Type 0
HasSize width height rate crash = ⊥
HasSize width height rate (resized d notices messages log) =
    IsShown d
    × IsTimed d.settings
    × (d.settings.width ≡ width)
    × (d.settings.height ≡ height)
    × (d.settings.framerate ≡ rate)

configured-HasSize :
    (randr : Randr) (w : WindowChange) (r : Resized)
    → randr.has_output ≡ true
    → 0 < w.width
    → 0 < w.height
    → IsConfigured randr w r
    → HasSize w.width w.height (rate_of w) r
configured-HasSize randr w crash output wide high is = is
configured-HasSize randr w (resized d notices messages log) output wide high
      (shown, is_timed, settled) =
    (shown, is_timed, ground (arith, output), ground (arith, output), ground (arith, output))

and_then-HasSize :
    (width height rate : ℕ) (r : Resized)
    → HasSize width height rate r
    → HasSize width height rate (and_then r (λ d. resized d [] [] []))
and_then-HasSize width height rate crash is = is
and_then-HasSize width height rate (resized d notices messages log) is = is

meanings-window :
    {V : Type 0} (abi : Abi V) (t : Tables) (w h f : ℕ) (name : Bytes)
    → (0 < w) × (w < 2 ^ 16)
    → (0 < h) × (h < 2 ^ 16)
    → f < 2 ^ 16
    → meanings abi t (send_window_change (pos w) (pos h) (pos f) (some name) ∷ [])
      ≡ screen_size w h f name ∷ []
unfolding meanings
meanings-window abi t w h f name (wide, w_fits) (high, h_fits) fast =
    let is_wide : (w == 0) ≡ false = ground arith in
    let is_high : (h == 0) ≡ false = ground arith in
    rw (mod-eq_of_lt w_fits, mod-eq_of_lt h_fits, mod-eq_of_lt fast, is_wide, is_high) refl

module _ {V : Type 0} (abi : Abi V) (t : Tables) (fp : Floats V) (size : ScreenSize)
    (host : Host) where
  -- sendWindowChange with a size that is not 0 and numbers and a name that fit, the name
  -- also the buffer of the socket, by an activity with a
  -- connection: the server reads it from the socket and leaves it to its other thread, and after that,
  -- where there is an output, libxcvt makes a mode of the size, and the screen can have it if it is not its
  -- size and rate already: the screen is shown and has the size and the rate.
  pub send_window_change-HasSize :
      (c : Channel V) (randr : Randr) (z : ℕ → Resizing) (d : Display) (w h f : ℕ) (name : Bytes)
      → IsAbi abi
      → IsLibrary t
      → (0 < w) × (w < 2 ^ 16)
      → (0 < h) × (h < 2 ^ 16)
      → f < 2 ^ 16
      → length name < 2 ^ 31
      → length name ≤ abi.room
      → randr.has_output ≡ true
      → (let window = window_of w h f name in
          (randr.mode_of w h (rate_of window) ≡ (w, h))
          × (asks_resize randr window (named randr window d).settings ≡ true
              → CanResize (z 0) w h (named randr window d)))
      → IsShown d
      → IsTimed d.settings
      → let s = send_calls abi t (send_window_change (pos w) (pos h) (pos f) (some name) ∷ []) in
        let (c', actions) = handle_events fp size host (serve_all abi (length s) s).0 c in
        HasSize w h (rate_of (window_of w h f name)) (run_screen randr z 0 actions d)
  unfolding handle_events work_screen
  send_window_change-HasSize c randr z d w h f name is library wide high fast short prompt output
        (mode, can) shown is_timed =
      let window = window_of w h f name in
      let call : List (SendCall V) = send_window_change (pos w) (pos h) (pos f) (some name) ∷ [] in
      let read =
        ap (λ (r : List (ActivityEvent V) × Bytes). r.0)
          (serve_all-send_calls abi t call is library (short, tt) (prompt, tt))
        ∙ meanings-window abi t w h f name wide high fast in
      subst
        (λ es.
          HasSize w h (rate_of window) (run_screen randr z 0 (handle_events fp size host es c).1 d))
        (sym read)
        (and_then-HasSize w h (rate_of window) (configure_notify randr (z 0) window d) (
          configured-HasSize randr window (configure_notify randr (z 0) window d) output wide.0
            high.0 (configure_notify-IsConfigured randr (z 0) window d mode can shown is_timed)))
