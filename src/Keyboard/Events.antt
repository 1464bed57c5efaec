-- ===== src/Keyboard/Events.antt =====
-- lorieKeysymKeyboardEvent of app/src/main/cpp/lorie/InputXKB.c: the key events that a symbol of the
-- activity is turned into.
-- QueueKeyboardEvents queues an event, mieqProcessInputEvents processes the queue. No event is processed
-- between its two calls, so the device stays as the first of them leaves it, but for the key map that
-- lorieAddKeysym changes.
use termux_x11_extra.Base.{
  ℕ, zero, suc, ◌+◌, bit_and, Bool, true, false, List, [], ◌∷◌, ◌++◌, map, Option, none, some, ◌==◌,
  if◌then◌else◌,
}
use termux_x11_extra.Keyboard.{shift_mask, and_not}
use termux_x11_extra.Keyboard.Lookup.{level_three_mask}
use termux_x11_extra.Keyboard.Modifiers.{Device, press_shift, release_keys, press_level_three}
use termux_x11_extra.Keyboard.Added.{on_key_used}
use termux_x11_extra.Keyboard.Choice.{
  KeyEvent, Keyboard, Server, Choice, choose_key, avoid_fake_shift, keep_shift, press, release,
}

-- What is done about a modifier that has to change: nothing, or there is no key for it, or a key is
-- pressed, or keys are released, for the time of the event.
pub data Fake : Type 0 where
  nothing unable : Fake
  pressing : ℕ → Fake
  releasing : List ℕ → Fake

abbrev pub fake_press : ℕ → Fake
fake_press key = if key == 0 then unable else pressing key

abbrev pub fake_release : List ℕ → Fake
fake_release [] = unable
fake_release (key ∷ keys) = releasing (key ∷ keys)

-- The tests of `state` and `new_state` by a mask.
abbrev pub fake_for : ℕ → ℕ → ℕ → ℕ → List ℕ → Fake
fake_for mask state new_state key keys =
    if bit_and state mask == 0
    then (if bit_and new_state mask == 0 then nothing else fake_press key)
    else (if bit_and new_state mask == 0 then fake_release keys else nothing)

abbrev pub fake_events : Fake → List KeyEvent
fake_events nothing = []
fake_events unable = []
fake_events (pressing key) = press key ∷ []
fake_events (releasing keys) = map release keys

abbrev pub undo_events : Fake → List KeyEvent
undo_events nothing = []
undo_events unable = []
undo_events (pressing key) = release key ∷ []
undo_events (releasing keys) = map press keys

abbrev pub is_unable : Fake → Bool
is_unable unable = true
is_unable nothing = false
is_unable (pressing key) = false
is_unable (releasing keys) = false

-- `level_three_mask` of the event.
abbrev pub level_mask_for : Device → ℕ → ℕ
level_mask_for d new_state =
    if and_not new_state shift_mask == and_not d.state shift_mask
    then 0
    else level_three_mask d.xkb d.state

abbrev pub max_released : ℕ
max_released = 8

abbrev pub shift_fake : Device → ℕ → Fake
shift_fake d new_state =
    fake_for shift_mask d.state new_state (press_shift d) (release_keys d shift_mask max_released)

abbrev pub level_fake : Device → ℕ → Fake
level_fake d new_state =
    let mask = level_mask_for d new_state in
    fake_for mask d.state new_state (press_level_three d)
      (release_keys d (level_three_mask d.xkb d.state) max_released)

-- The keyboard after the event, the events, and the key that stands for the symbol, 0 for none.
pub record Sent : Type 0 where
  pub keyboard : Keyboard
  pub events : List KeyEvent
  pub key : ℕ

-- The loop over `pressedKeys`, and the assignment after it.
abbrev pub store_pressed : ℕ → ℕ → (ℕ → ℕ) → ℕ → ℕ
store_pressed key keysym pressed i =
    if i == key then keysym else if pressed i == keysym then 0 else pressed i

-- From the fake modifiers on.
unfoldable pub press_faked : Server → ℕ → Keyboard → ℕ → Fake → Fake → Sent
unfolding on_key_used
press_faked sv keysym k key f g =
    if is_unable f
    then record { keyboard = k; events = []; key = 0 }
    else if is_unable g
    then record {
      keyboard = record k { queued = k.queued ++ fake_events f };
      events = fake_events f;
      key = 0;
    }
    else let events =
        fake_events f ++ (fake_events g ++ (press key ∷ (undo_events g ++ undo_events f))) in
      record {
        keyboard = record {
          device = sv.process (k.queued ++ events) k.device;
          queued = [];
          pressed = store_pressed key keysym k.pressed;
          added = on_key_used key k.added;
        };
        events = events;
        key = key;
      }

-- From the choice of the key on.
unfoldable pub press_choice : Server → ℕ → Choice → Sent
unfolding press_faked avoid_fake_shift level_three_mask press_shift press_level_three release_keys
press_choice sv keysym c =
    if c.key == 0
    then record { keyboard = c.keyboard; events = []; key = 0 }
    else let c' = avoid_fake_shift keysym c in
      let d = c'.keyboard.device in
      let new_state = keep_shift keysym d.state c'.new_state in
      press_faked sv keysym c'.keyboard c'.key (shift_fake d new_state) (level_fake d new_state)

-- mieqProcessInputEvents
abbrev pub process_queue : Server → Keyboard → Keyboard
process_queue sv k = record k { device = sv.process k.queued k.device; queued = [] }

-- lorieKeysymKeyboardEvent for a key that goes down.
unfoldable pub press_keysym : Server → ℕ → Keyboard → Sent
unfolding choose_key press_choice
press_keysym sv keysym k = press_choice sv keysym (choose_key sv keysym (process_queue sv k))

-- The loop over `pressedKeys` from `i` on: the first index of the symbol.
unfoldable pub find_pressed : (ℕ → ℕ) → ℕ → ℕ → ℕ → Option ℕ
find_pressed pressed keysym zero i = none
find_pressed pressed keysym (suc n) i =
    let rest = find_pressed pressed keysym n (i + 1) in if pressed i == keysym then some i else rest

abbrev pub release_found : Server → Keyboard → Option ℕ → Keyboard × List KeyEvent
release_found sv k none = (k, [])
release_found sv k (some i) = (
  record k {
    device = sv.process (k.queued ++ release i ∷ []) k.device;
    queued = [];
    pressed = λ j. if j == i then 0 else k.pressed j;
  },
  release i ∷ [],
)

-- lorieKeysymKeyboardEvent for a key that goes up.
unfoldable pub release_keysym : Server → ℕ → Keyboard → Keyboard × List KeyEvent
unfolding find_pressed
release_keysym sv keysym k = release_found sv k (find_pressed k.pressed keysym 256 0)
