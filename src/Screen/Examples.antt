-- ===== src/Screen/Examples.antt =====
-- Runs of the screen of app/src/main/cpp/lorie/InitOutput.c, and the properties at concrete sizes.
use termux_x11_extra.Base.{
  ℕ, ◌≡◌, refl, true, false, List, [], ◌∷◌, Option, none, some, ◌==◌, if◌then◌else◌, arith,
}
use termux_x11_extra.Base.Int.{pos}
use termux_x11_extra.Buffer.{b8g8r8a8}
use termux_x11_extra.Buffer.Create.{System, allocate_own}
use termux_x11_extra.Access.{Accessed}
use termux_x11_extra.Renderer.Examples.{buffer}
use termux_x11_extra.Channel.Link.{add_buffer, shared_state}
use termux_x11_extra.Screen.{
  Settings, Display, process_argument, force_bgra_flag, xstartup_flag, missing_argument, nothing,
}
use termux_x11_extra.Screen.Pixmaps.{activity_connected}
use termux_x11_extra.Screen.Resize.{Resizing, Resized, crash, resized, resize}
use termux_x11_extra.Screen.Shown.{IsShown}
use termux_x11_extra.Screen.Runs.{
  CanResize, ScreenStep, resizing, connecting, failing, screen_step, screen_run, ArePossible,
  IsShownAfter, screen_run-IsShownAfter,
}
use termux_x11_extra.Screen.Configure.{
  Randr, WindowChange, named, asks_resize, IsConfigured, configure_notify,
  configure_notify-IsConfigured,
}

abbrev system : System
system = record {
  page_size = 4096;
  shared_memory = λ size. pos 30;
  memfd = pos 31;
  ashmem = pos 32;
  set_name = pos 0;
  set_size = λ size. pos 0;
  dup = λ fd. pos 40;
  mmap = λ fd size offset. some 5000;
  pixels = λ size. some 6000;
  block = some 7000;
  new_hardware = λ width height format. some 8000;
  describe = λ h. record { width = pos 2; height = pos 3; stride = pos 4; format = b8g8r8a8 };
  lock_status = pos 0;
  lock_address = 9000;
}

abbrev settings : Settings
settings = record {
  legacy_drawing = false;
  flip = false;
  width = 1280;
  height = 1024;
  name = [];
  framerate = 30;
  dri3 = true;
  vblank_interval = 33333;
  xstartup = none;
}

abbrev old_pixmap : Accessed
old_pixmap = record {
  buffer = some (record (buffer 10 1) { locked = true; locked_data = some 9000 });
  locked = some 9000;
  mem = none;
  was_locked = false;
  pointer = none;
  held = 0;
}

-- The root window has the pixmap 1 of the screen; its buffer is registered.
abbrev pub display : Display
display = record {
  settings = settings;
  present = record { queue = []; current_msc = 7 };
  pixmaps = λ i. if i == 1 then some old_pixmap else none;
  screen_pixmap = some 1;
  root_pixmap = some 1;
  counter = 2;
  link = record { conn = some 5; registered = 1 ∷ [] };
  draw_requested = false;
  cursor_updated = false;
  cursor_moved = false;
}

abbrev pub to_pixmap : ℕ → Resizing
to_pixmap fresh = record {
  clock = λ n. n;
  restore = λ d. d;
  making = record {
    system = system;
    locking = record { ret = pos 0; address = some 9000 };
    has_memory = true;
    fresh = fresh;
  };
  unlock_ret = pos 0;
  context = true;
  display = true;
  is_last = true;
}

abbrev link_of : Resized → Option (List ℕ)
link_of crash = none
link_of (resized d notices messages log) = some d.link.registered

-- The old buffer is taken back from the activity, and the new one given to it.
resize_link : link_of (resize (to_pixmap 2) 800 600 display) ≡ some (2 ∷ [])
unfolding resize
resize_link = refl

connected_messages :
    (activity_connected 11 (record display { link = record { conn = some 6; registered = [] } })).1
    ≡ shared_state 11 ∷ add_buffer 1 ∷ []
unfolding activity_connected
connected_messages = refl

flipped_argument :
    process_argument force_bgra_flag none settings ≡ (record settings { flip = true }, 1, nothing)
unfolding process_argument
flipped_argument = refl

command_missing : process_argument xstartup_flag none settings ≡ (settings, 0, missing_argument)
unfolding process_argument
command_missing = refl

pub display-IsShown : IsShown display
display-IsShown = (refl, refl, λ connected. refl)

display-CanResize : CanResize (to_pixmap 2) 800 600 display
unfolding allocate_own
display-CanResize = (refl, refl, refl, tt, (1, refl, refl, refl))

abbrev sizes : List ScreenStep
sizes =
    resizing (to_pixmap 2) 800 600 ∷ failing ∷ connecting 8 11 ∷ resizing (to_pixmap 3) 600 800 ∷ []

sizes-ArePossible : ArePossible sizes display
unfolding screen_step resize allocate_own
sizes-ArePossible = (
  (refl, refl, refl, tt, (1, refl, refl, refl)),
  (tt, (refl, ((refl, refl, refl, tt, (2, refl, refl, refl)), tt))),
)

screen_run-IsShownAfter_example : IsShownAfter (screen_run sizes display)
screen_run-IsShownAfter_example =
    screen_run-IsShownAfter sizes display sizes-ArePossible display-IsShown

abbrev pub randr : Randr
randr = record { has_output = true; mode_of = λ width height rate. (width, height) }

abbrev window : WindowChange
window = record { width = 800; height = 600; framerate = 0; name = some (65 ∷ 66 ∷ []) }

named-CanResize :
    asks_resize randr window (named randr window display).settings ≡ true
    → CanResize (to_pixmap 2) 800 600 (named randr window display)
unfolding allocate_own
named-CanResize asked = (refl, refl, refl, tt, (1, refl, refl, refl))

configure_notify-IsConfigured_example :
    IsConfigured randr window (configure_notify randr (to_pixmap 2) window display)
configure_notify-IsConfigured_example =
    configure_notify-IsConfigured randr (to_pixmap 2) window display refl named-CanResize
      display-IsShown (omega arith, refl)
