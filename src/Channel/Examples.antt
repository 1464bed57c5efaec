-- ===== src/Channel/Examples.antt =====
-- Runs of handleLorieEvents of app/src/main/cpp/lorie/cmdentrypoint.c, and the properties at concrete
-- events. The numbers stand for doubles.
use termux_x11_extra.Base.{
  ℕ, ◌*◌, ◌/◌, min, ap, ◌∙◌, ◌≡◌, refl, Bool, true, false, List, [], ◌∷◌, ◌++◌, Option, none, some,
  ◌==◌, if◌then◌else◌, arith, map,
}
use termux_x11_extra.Keyboard.{KeyType, wrap, Xkb}
use termux_x11_extra.Keyboard.Choice.{press, release, Keyboard}
use termux_x11_extra.Keyboard.Pairing.{IsPaired}
use termux_x11_extra.Channel.{Floats, ScreenSize}
use termux_x11_extra.Channel.Touch.{
  TouchEvent, TouchPoint, QueuedTouch, is_active, activity, handle_touches, IsOrdered,
  handle_touches-IsOrdered,
}
use termux_x11_extra.Channel.Link.{Link, handle_error, add_fd}
use termux_x11_extra.Channel.Pointer.{
  PointerDevice, mouse, pen, eraser, PointerEvent, motion, button, StylusEvent, MouseEvent,
  Pointers, no_axes, handle_stylus, handle_mouse,
}
use termux_x11_extra.Channel.Dispatch.{Host, type_unicode}
use termux_x11_extra.Channel.Buttons.{bit, is_down, handle_stylus-is_down}

abbrev pub numbers : Floats ℕ
numbers = record {
  scaled = λ x width. x * 65535 / width;
  is_same = λ a b. a == b;
  is_zero = λ a. a == 0;
  of_number = λ n. n;
  clamped = λ a n. min a n;
  notch = λ a. a / 120;
}

abbrev pub size : ScreenSize
size = record { width = 100; height = 50 }

-- A point is active from its begin to its end.
abbrev apply : (ℕ → Option (TouchPoint ℕ)) → QueuedTouch ℕ → ℕ → Option (TouchPoint ℕ)
apply touches q id =
    if id == q.id
    then if q.type == 18
      then some (record { active = true; x = some q.x; y = some q.y })
      else if q.type == 20
      then none
      else touches id
    else touches id

abbrev touched : ℕ → ℕ → TouchEvent
touched type x = record { type = type; id = 3; x = x; y = 10 }

abbrev types : List (QueuedTouch ℕ) → List ℕ
types qs = map (λ (q : QueuedTouch ℕ). q.type) qs

-- The begin is missing, and there is one end too many.
touch_run :
    types (
      handle_touches numbers size apply
        (λ id. none)
        (touched 19 5 ∷ touched 19 7 ∷ touched 20 7 ∷ touched 20 7 ∷ []))
    ≡ 18 ∷ 19 ∷ 20 ∷ []
unfolding handle_touches
touch_run = refl

is_active-if :
    (c : Bool) (a b : Option (TouchPoint ℕ))
    → is_active numbers size (if c then a else b)
      ≡ (if c then is_active numbers size a else is_active numbers size b)
is_active-if true a b = refl
is_active-if false a b = refl

apply-activity :
    (t : ℕ → Option (TouchPoint ℕ)) (q : QueuedTouch ℕ) (id : ℕ)
    → is_active numbers size (apply t q id)
      ≡ activity numbers size (λ i. is_active numbers size (t i)) q id
apply-activity t q id =
    is_active-if (id == q.id) _ (t id)
    ∙ ap (λ b. if id == q.id then b else is_active numbers size (t id))
        (is_active-if (q.type == 18) _ _
          ∙ ap (λ b. if q.type == 18 then true else b) (is_active-if (q.type == 20) none (t id)))

handle_touches-IsOrdered_example :
    IsOrdered numbers size
      (λ id. false)
      (handle_touches numbers size apply
        (λ id. none)
        (touched 19 5 ∷ touched 19 7 ∷ touched 20 7 ∷ []))
handle_touches-IsOrdered_example =
    handle_touches-IsOrdered numbers size apply (λ id. none)
      (touched 19 5 ∷ touched 19 7 ∷ touched 20 7 ∷ []) apply-activity

-- A scroll and a move in one call: the move still carries the axis of the scroll.
abbrev scrolled : MouseEvent ℕ
scrolled = record { x = 0; y = 240; detail = 4; down = false; is_relative = true }

abbrev moved : MouseEvent ℕ
moved = record { x = 20; y = 30; detail = 0; down = false; is_relative = false }

abbrev pub pointers : Pointers ℕ
pointers = record { buttons_prev = 5; mask = no_axes; has_stylus = true }

axis_of : List (PointerEvent ℕ) → ℕ → List (Option ℕ)
axis_of [] axis = []
axis_of (motion device flags mask ∷ es) axis = mask axis ∷ axis_of es axis
axis_of (button device pressed n ∷ es) axis = axis_of es axis

scroll_kept :
    axis_of
      ((handle_mouse numbers size scrolled pointers).1
        ++ (handle_mouse numbers size moved (handle_mouse numbers size scrolled pointers).0).1)
      3
    ≡ some 2 ∷ some 2 ∷ []
unfolding handle_mouse axis_of
scroll_kept = refl

-- The pen releases the buttons 1 and 3 and presses 2.
abbrev pen_event : StylusEvent ℕ
pen_event = record {
  x = 1;
  y = 2;
  pressure = 3;
  tilt_x = 4;
  tilt_y = 5;
  orientation = 6;
  buttons = 2;
  is_eraser = false;
  is_mouse = false;
}

-- Before the event the pen's buttons are those of the state, and the others' are up.
abbrev pen_down : PointerDevice → ℕ → Bool
pen_down mouse i = false
pen_down pen i = bit 5 i
pen_down eraser i = false

handle_stylus-is_down_example :
    let (p', events) = handle_stylus numbers size pen_event pointers in
    (is_down pen 2 events (bit 5 2) ≡ bit 2 2)
    × (is_down eraser 2 events false ≡ false)
    × (p'.buttons_prev ≡ 2)
handle_stylus-is_down_example =
    handle_stylus-is_down numbers size pen_event pointers pen_down 2 eraser refl (omega arith)
      (omega arith) (omega arith) refl refl

-- The connection fails and is made again.
abbrev unlinked : Link
unlinked = record { conn = none; registered = [] }

-- The error of an old connection closes the one that has taken its place.
late_error : (handle_error (add_fd (add_fd unlinked 7) 8)).conn ≡ none
late_error = refl

-- A keyboard with the letter a on the key 9, and Shift, which is down, on the key 10.
abbrev one_level : KeyType
one_level = record { mask = 0; map = none; preserve = none }

abbrev letter_map : Xkb
letter_map = record {
  min_key_code = 8;
  max_key_code = 10;
  keys = λ key. record {
    num_groups = 1;
    out_of_range = wrap;
    groups_width = 1;
    types = λ _. one_level;
    syms = λ _. if key == 9 then 97 else 0;
    actions = none;
    name = 0;
  };
  modmap = λ _. 0;
  has_names = true;
  group_of = λ _. 0;
  lower = λ s. s;
  upper = λ s. s;
}

abbrev pub keyboard : Keyboard
keyboard = record {
  device = record { xkb = letter_map; state = 0; down = λ _. false };
  queued = [];
  pressed = λ i. if i == 10 then 97 else 0;
  added = [];
}

abbrev pub host : Host
host = record {
  server = record { process = λ es d. d; change_types = λ xkb key. xkb; allocated = true };
  keysym_of = λ code. code;
}

typed : (type_unicode host 97 keyboard).1 ≡ press 9 ∷ release 9 ∷ []
unfolding type_unicode
typed = refl

pub keyboard-IsPaired : IsPaired keyboard.pressed
keyboard-IsPaired i j nonzero same = ground arith
