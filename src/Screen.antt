-- ===== src/Screen.antt =====
-- The screen of the server, app/src/main/cpp/lorie/InitOutput.c: its settings (ddxProcessArgument,
-- lorieConfigureNotify), the pixmap of the root window and its buffer (lorieCreatePixmap,
-- lorieCreateScreenResources, lorieSetWindowPixmap, lorieRRScreenSetSize), and lorieActivityConnected; on
-- top of Access, Buffer, Vblank and Channel.Link.
pub mod Pixmaps
pub mod Resize
pub mod Shown
pub mod Runs
pub mod Configure
pub mod Window
pub mod Examples
mod Arrival
use termux_x11_extra.Base.{ℕ, Bool, true, false, Option, none, some}
use termux_x11_extra.Text.{Bytes}
use termux_x11_extra.Vblank.{Present}
use termux_x11_extra.Access.{Accessed}
use termux_x11_extra.Channel.Link.{Link}

-- The part `root` of lorieScreenInfo, with `dri3` and `vblank_interval`, and the variable `xstartup`.
pub record Settings : Type 0 where
  pub legacy_drawing : Bool
  pub flip : Bool
  pub width : ℕ
  pub height : ℕ
  pub name : Bytes  -- 1024 bytes
  pub framerate : ℕ
  pub dri3 : Bool
  pub vblank_interval : ℕ
  pub xstartup : Option Bytes

-- The server's side of the screen: the private parts of the pixmaps, devPrivate, the pixmap of the
-- root window, the counter of LorieBuffer, the connection, and flags of the shared state.
pub record Display : Type 0 where
  pub settings : Settings
  pub present : Present
  pub pixmaps : ℕ → Option Accessed
  pub screen_pixmap : Option ℕ
  pub root_pixmap : Option ℕ
  pub counter : ℕ
  pub link : Link
  pub draw_requested : Bool
  pub cursor_updated : Bool
  pub cursor_moved : Bool

-- argv[i]: a string that it is compared with, or another.
pub data Argument : Type 0 where
  xstartup_flag legacy_drawing_flag force_bgra_flag disable_dri3_flag : Argument
  force_sysvshm_flag check_drawing_flag unknown_flag : Argument

-- What an argument asks for besides: UseMsg and FatalError, android_shmem_sysv_shm_force(1), or NoListenAll
-- with drawSquares.
pub data Asked : Type 0 where
  nothing missing_argument force_sysvshm draw_squares : Asked

-- ddxProcessArgument, with argv[i + 1] if there is one: the settings, what it returns, what it asks for.
unfoldable pub process_argument : Argument → Option Bytes → Settings → Settings × ℕ × Asked
process_argument xstartup_flag none s = (s, 0, missing_argument)
process_argument xstartup_flag (some command) s = (record s { xstartup = some command }, 2, nothing)
process_argument legacy_drawing_flag next s = (record s { legacy_drawing = true }, 1, nothing)
process_argument force_bgra_flag next s = (record s { flip = true }, 1, nothing)
process_argument disable_dri3_flag next s = (record s { dri3 = false }, 1, nothing)
process_argument force_sysvshm_flag next s = (s, 1, force_sysvshm)
process_argument check_drawing_flag next s = (s, 1, draw_squares)
process_argument unknown_flag next s = (s, 0, nothing)
