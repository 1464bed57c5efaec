-- ===== src/Channel/Dispatch.antt =====
-- handleLorieEvents of app/src/main/cpp/lorie/cmdentrypoint.c: what each event of the activity does,
-- and the events that one call reads.
use termux_x11_extra.Base.{ℕ, Bool, List, [], ◌∷◌, ◌++◌, map, if◌then◌else◌}
use termux_x11_extra.Text.{Bytes}
use termux_x11_extra.Keyboard.Choice.{KeyEvent, press, release, Keyboard, Server}
use termux_x11_extra.Keyboard.Events.{press_keysym, release_keysym}
use termux_x11_extra.Clipboard.{Clipboard}
use termux_x11_extra.Clipboard.Own.{enable_clipboard_sync}
use termux_x11_extra.Channel.{Floats, ScreenSize}
use termux_x11_extra.Channel.Touch.{TouchEvent}
use termux_x11_extra.Channel.Pointer.{
  PointerEvent, StylusEvent, MouseEvent, Pointers, no_axes, handle_stylus, handle_mouse,
}

-- lorieEvent, each with what is read behind it. An event that the switch has no case for is `other`.
pub data ActivityEvent (V : Type 0) : Type 0 where
  screen_size : ℕ → ℕ → ℕ → Bytes → ActivityEvent V  -- width, height, framerate, name
  touch : TouchEvent → ActivityEvent V
  stylus : StylusEvent V → ActivityEvent V
  stylus_enable : Bool → ActivityEvent V
  mouse_event : MouseEvent V → ActivityEvent V
  key : ℕ → Bool → ActivityEvent V
  unicode : ℕ → ActivityEvent V
  clipboard_enable : Bool → ActivityEvent V
  clipboard_announce : ActivityEvent V
  clipboard_send : Bytes → ActivityEvent V
  other : ActivityEvent V

-- What is left to the server's thread by QueueWorkProc.
pub data Work : Type 0 where
  configure : ℕ → ℕ → ℕ → Bytes → Work
  handle_touch_later : TouchEvent → Work
  announce_clipboard : Work
  give_clipboard : Bytes → Work

-- Calls of the X server.
pub data Action (V : Type 0) : Type 0 where
  queue_pointer : PointerEvent V → Action V
  queue_key : KeyEvent → Action V
  queue_work : Work → Action V

pub record Channel (V : Type 0) : Type 0 where
  pub pointers : Pointers V
  pub keyboard : Keyboard
  pub clipboard : Clipboard

-- The X server's keyboard and ucs2keysym.
pub record Host : Type 0 where
  pub server : Server
  pub keysym_of : ℕ → ℕ

abbrev pub key_event : ℕ → Bool → KeyEvent
key_event k down = if down then press k else release k

-- EVENT_UNICODE: the symbol goes down and up.
unfoldable pub type_unicode : Host → ℕ → Keyboard → Keyboard × List KeyEvent
unfolding press_keysym release_keysym
type_unicode host code k =
    let keysym = host.keysym_of code in
    let s = press_keysym host.server keysym k in
    let (k', up) = release_keysym host.server keysym s.keyboard in (k', s.events ++ up)

-- lorieSetStylusEnabled: the pen and the eraser are added, or removed.
abbrev pub set_stylus_enabled : {V : Type 0} → Bool → Pointers V → Pointers V
set_stylus_enabled enable p = record p { has_stylus = enable }

module _ {V : Type 0} (fp : Floats V) (size : ScreenSize) (host : Host) where
  abbrev pub with_pointers :
      Channel V → Pointers V × List (PointerEvent V) → Channel V × List (Action V)
  with_pointers c (p, events) = (record c { pointers = p }, map queue_pointer events)

  abbrev pub with_keyboard : Channel V → Keyboard × List KeyEvent → Channel V × List (Action V)
  with_keyboard c (k, events) = (record c { keyboard = k }, map queue_key events)

  abbrev pub later : Channel V → Work → Channel V × List (Action V)
  later c w = (c, queue_work w ∷ [])

  -- The switch.
  unfoldable pub handle_event : ActivityEvent V → Channel V → Channel V × List (Action V)
  unfolding handle_stylus handle_mouse type_unicode
  handle_event (screen_size width height framerate name) c =
      later c (configure width height framerate name)
  handle_event (touch e) c = later c (handle_touch_later e)
  handle_event (stylus e) c = with_pointers c (handle_stylus fp size e c.pointers)
  handle_event (stylus_enable enable) c =
      (record c { pointers = set_stylus_enabled enable c.pointers }, [])
  handle_event (mouse_event e) c = with_pointers c (handle_mouse fp size e c.pointers)
  handle_event (key k down) c =
      let kb = c.keyboard in
      (
        record c { keyboard = record kb { queued = kb.queued ++ key_event k down ∷ [] } },
        queue_key (key_event k down) ∷ [],
      )
  handle_event (unicode code) c = with_keyboard c (type_unicode host code c.keyboard)
  handle_event (clipboard_enable enable) c =
      (record c { clipboard = enable_clipboard_sync enable c.clipboard }, [])
  handle_event clipboard_announce c = later c announce_clipboard
  handle_event (clipboard_send s) c = later c (give_clipboard (s ++ 0 ∷ []))
  handle_event other c = (c, [])

  unfoldable pub handle_each : List (ActivityEvent V) → Channel V → Channel V × List (Action V)
  unfolding handle_event
  handle_each [] c = (c, [])
  handle_each (e ∷ es) c =
      let (c', actions) = handle_event e c in
      let (c'', more) = handle_each es c' in (c'', actions ++ more)

  -- One call of handleLorieEvents: the mask is empty at its start and not between its events.
  unfoldable pub handle_events : List (ActivityEvent V) → Channel V → Channel V × List (Action V)
  unfolding handle_each
  handle_events es c =
      let p = c.pointers in handle_each es (record c { pointers = record p { mask = no_axes } })
