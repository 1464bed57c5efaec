-- ===== src/Activity/Messages.antt =====
-- What the server sends to the activity, app/src/main/cpp/lorie/activity.c, in concrete runs.
use termux_x11_extra.Base.{
  ℕ, true, ◌+◌, ◌≡◌, refl, false, List, [], ◌∷◌, ◌++◌, Option, none, some, ◌==◌, if◌then◌else◌,
  arith, length, inl, inr,
}
use termux_x11_extra.Text.{Bytes}
use termux_x11_extra.Renderer.Windows.{
  null, default_window, no_surface, Windows, Egl, refs, returned,
}
use termux_x11_extra.Activity.Surface.{surfaces_run, shown_times, taken_all, surfaces_run-refs}
use termux_x11_extra.Renderer.Examples.{gl, buffer, renderer}
use termux_x11_extra.Activity.Receive.{
  ReplyHeader, shared_state_head, add_buffer_head, remove_buffer_head, clipboard_request_head,
  clipboard_data_head, focus_changed_head, ReplyAbi, ReplyHost, Activity, head_cells, reply_cells,
  sending_clipboard, set_clipboard_text, xcallback, hang_up,
}
use termux_x11_extra.Activity.Overread.{xcallback-lost}
use termux_x11_extra.Activity.Ends.{
  Ends, EndsStep, registering, unregistering, delivering, rounding, hanging, failing, connecting,
  ends_step, ends_run, AreFit,
}
use termux_x11_extra.Activity.Mirror.{AreMirrored, ends_run-AreMirrored}

abbrev reply_bytes : ReplyHeader → Bytes
reply_bytes shared_state_head = 1 ∷ 0 ∷ []
reply_bytes add_buffer_head = 2 ∷ 0 ∷ []
reply_bytes (remove_buffer_head id) = 3 ∷ id ∷ []
reply_bytes clipboard_request_head = 13 ∷ 0 ∷ []
reply_bytes (clipboard_data_head n) = 14 ∷ n ∷ []
reply_bytes focus_changed_head = 16 ∷ 0 ∷ []

abbrev header_of : Bytes → Option ReplyHeader
header_of (tag ∷ n ∷ s) =
    if tag == 1
    then some shared_state_head
    else if tag == 2
    then some add_buffer_head
    else if tag == 3
    then some (remove_buffer_head n)
    else if tag == 13
    then some clipboard_request_head
    else if tag == 14
    then some (clipboard_data_head n)
    else if tag == 16
    then some focus_changed_head
    else none
header_of s = none

abbrev replies : ReplyAbi
replies = record { size = 2; encode = reply_bytes; decode = header_of; packet_size = λ p. 1 }

reply_bytes-length : (h : ReplyHeader) → length (reply_bytes h) ≡ 2
reply_bytes-length shared_state_head = refl
reply_bytes-length add_buffer_head = refl
reply_bytes-length (remove_buffer_head id) = refl
reply_bytes-length clipboard_request_head = refl
reply_bytes-length (clipboard_data_head n) = refl
reply_bytes-length focus_changed_head = refl

abbrev host : ReplyHost
host = record {
  receiver = record {
    receive_fd = λ fd. fd;
    mmap = λ fd n. some 500;
    receive_hardware = λ h. h;
    block = some 600;
  };
  map_state = λ fd. none;
  gl = gl;
}

abbrev activity : Activity
activity = record { conn = some 7; buffer = none; renderer = renderer }

xcallback-lost_example :
    let (a1, first, left) = xcallback replies host false activity (
      reply_cells replies 7 (sending_clipboard (72 ∷ 105 ∷ []))
      ++ head_cells replies clipboard_request_head) in
    let (a2, second, rest) = xcallback replies host false a1 left in
    (a1 ≡ activity)
    × (first ≡ set_clipboard_text (72 ∷ 105 ∷ []) ∷ [])
    × (a2 ≡ activity)
    × (second ≡ [])
    × (rest ≡ [])
xcallback-lost_example =
    xcallback-lost replies host 7 activity (72 ∷ 105 ∷ []) clipboard_request_head
      (reply_bytes-length, λ n small. refl) (omega arith) refl (omega arith, (omega arith, tt))
      (omega arith) (omega arith)

-- The first messages of a connection.
abbrev ends : Ends
ends = record {
  link = record { conn = some 7; registered = [] };
  way = [];
  activity = record activity { renderer = record renderer { added = []; buffers = [] } };
}

abbrev steps : List EndsStep
steps =
    registering (buffer 20 2)
    ∷ registering (buffer 40 4)
    ∷ delivering
    ∷ rounding
    ∷ unregistering 2
    ∷ delivering
    ∷ delivering
    ∷ failing
    ∷ hanging
    ∷ connecting 9
    ∷ registering (buffer 50 5)
    ∷ []

ends-AreMirrored : AreMirrored ends
ends-AreMirrored = (inr (inr (λ i. refl)), inl refl, inl (λ i. refl), tt, tt)

steps-AreFit : AreFit host steps ends
unfolding ends_step hang_up
steps-AreFit =
    (refl, (refl, (refl, (tt, (tt, (refl, (tt, (tt, (tt, ((refl, refl), (refl, tt)))))))))))

ends_run-AreMirrored_example : AreMirrored (ends_run host steps ends)
ends_run-AreMirrored_example = ends_run-AreMirrored host steps ends steps-AreFit ends-AreMirrored

abbrev egl : Egl
egl = record {
  default_current = true;
  destroyed = true;
  created = true;
  made_current = true;
  has_size = λ n. true;
}

abbrev windows : Windows
windows = record {
  win = default_window;
  pending = null;
  surface = no_surface;
  changed = false;
  state = none;
}

-- Two surfaces and then none.
abbrev surfaces : List (Egl × Option ℕ)
surfaces = (egl, some 5) ∷ (egl, some 6) ∷ (egl, none) ∷ []

surfaces_run-refs_example :
    let (w', log) = surfaces_run surfaces windows in
    refs 5 w'.win + refs 5 w'.pending + returned 5 log + shown_times 5 surfaces
    ≡ refs 5 windows.win + refs 5 windows.pending + taken_all 5 surfaces
surfaces_run-refs_example = surfaces_run-refs 5 surfaces windows (refl, (refl, (refl, tt)))
