-- ===== src/Activity/Transfer.antt =====
-- What the activity sends with app/src/main/cpp/lorie/activity.c is what handleLorieEvents of
-- app/src/main/cpp/lorie/cmdentrypoint.c reads.
use mathlib.Core.Path.{subst}
use mathlib.Core.List.{map-append}
use termux_x11_extra.Base.{
  ℕ, zero, suc, ◌≤◌, ◌<◌, ◌≡◌, refl, sym, ap, ◌∙◌, List, [], ◌∷◌, ◌++◌, arith, ltb, ==_refl,
  if◌then◌else◌, if-elim, length, length-append, drop, map, All,
}
use termux_x11_extra.Text.{Bytes}
use termux_x11_extra.Channel.Dispatch.{
  ActivityEvent, screen_size, touch, stylus, stylus_enable, mouse_event, key, unicode,
  clipboard_enable, clipboard_announce, clipboard_send, other,
}
use termux_x11_extra.Activity.{
  EventHeader, screen_size_head, touch_head, mouse_head, key_head, stylus_head, stylus_enable_head,
  unicode_head, clipboard_enable_head, clipboard_announce_head, clipboard_send_head, gamepad_head,
  Abi, IsInRange, IsAbi,
}
use termux_x11_extra.Activity.Send.{Frame, wire}
use termux_x11_extra.Activity.Serve.{
  take, stylus_event, read_filled, read_event, read_events, serve, serve_all,
}

-- How many bytes the server reads behind a struct.
abbrev payload_size : {V : Type 0} → EventHeader V → ℕ
payload_size (screen_size_head width height framerate name_size) = name_size
payload_size (touch_head e) = 0
payload_size (mouse_head e) = 0
payload_size (key_head k down) = 0
payload_size (stylus_head e) = 0
payload_size (stylus_enable_head enable) = 0
payload_size (unicode_head code) = 0
payload_size (clipboard_enable_head enable) = 0
payload_size clipboard_announce_head = 0
payload_size (clipboard_send_head count) = count
payload_size (gamepad_head button pressed x y axis) = 0

-- What follows the struct has come as a whole when it is read.
abbrev pub IsRead : {V : Type 0} → Abi V → EventHeader V → Type 0
IsRead abi (screen_size_head width height framerate name_size) = abi.arrived name_size ≡ name_size
IsRead abi (touch_head e) = Unit
IsRead abi (mouse_head e) = Unit
IsRead abi (key_head k down) = Unit
IsRead abi (stylus_head e) = Unit
IsRead abi (stylus_enable_head enable) = Unit
IsRead abi (unicode_head code) = Unit
IsRead abi (clipboard_enable_head enable) = Unit
IsRead abi clipboard_announce_head = Unit
IsRead abi (clipboard_send_head count) = abi.arrived count ≡ count
IsRead abi (gamepad_head button pressed x y axis) = Unit

-- The fields are in range, and as many bytes follow as the struct says, and have come.
abbrev pub IsWhole : {V : Type 0} → Abi V → Frame V → Type 0
IsWhole abi (h, payload) = IsInRange h × (length payload ≡ payload_size h) × IsRead abi h

take-append : (a b : Bytes) (n : ℕ) → n ≡ length a → take n (a ++ b) ≡ a
take-append [] b zero e = refl
take-append [] b (suc n) e = absurd (omega arith)
take-append (x ∷ a) b zero e = absurd (omega arith)
take-append (x ∷ a) b (suc n) e = ap (λ l. x ∷ l) (take-append a b n (omega arith))

pub drop-append : (a b : Bytes) (n : ℕ) → n ≡ length a → drop n (a ++ b) ≡ b
drop-append [] b zero e = refl
drop-append [] b (suc n) e = absurd (omega arith)
drop-append (x ∷ a) b zero e = absurd (omega arith)
drop-append (x ∷ a) b (suc n) e = drop-append a b n (omega arith)

read_filled-whole : (a : Bytes) (n : ℕ) → n ≡ length a → read_filled n a ≡ a
read_filled-whole [] zero e = refl
read_filled-whole [] (suc n) e = absurd (omega arith)
read_filled-whole (x ∷ a) zero e = absurd (omega arith)
read_filled-whole (x ∷ a) (suc n) e = ap (λ l. x ∷ l) (read_filled-whole a n (omega arith))

empty_of : (a : Bytes) → length a ≡ 0 → a ≡ []
empty_of [] e = refl
empty_of (x ∷ a) e = absurd (omega arith)

module _ {V : Type 0} (abi : Abi V) where
  -- The event that a frame stands for.
  unfoldable pub event_of : Frame V → ActivityEvent V
  event_of (screen_size_head width height framerate name_size, name) =
      screen_size width height framerate name
  event_of (touch_head e, payload) = touch e
  event_of (mouse_head e, payload) = mouse_event e
  event_of (key_head k down, payload) = key k down
  event_of (stylus_head e, payload) = stylus (stylus_event abi e)
  event_of (stylus_enable_head enable, payload) = stylus_enable enable
  event_of (unicode_head code, payload) = unicode code
  event_of (clipboard_enable_head enable, payload) = clipboard_enable enable
  event_of (clipboard_announce_head, payload) = clipboard_announce
  event_of (clipboard_send_head count, text) = clipboard_send text
  event_of (gamepad_head button pressed x y axis, payload) = other

  read_event-append :
      (h : EventHeader V) (payload s : Bytes)
      → length payload ≡ payload_size h
      → IsRead abi h
      → read_event abi h (payload ++ s) ≡ (event_of (h, payload), s)
  unfolding read_event event_of
  read_event-append (screen_size_head width height framerate n) name s whole come = rw come (
      rw
        (
          take-append name s n (sym whole),
          drop-append name s n (sym whole),
          read_filled-whole name n (sym whole),
        )
        refl)
  read_event-append (touch_head e) p s whole come = rw (empty_of p whole) refl
  read_event-append (mouse_head e) p s whole come = rw (empty_of p whole) refl
  read_event-append (key_head k down) p s whole come = rw (empty_of p whole) refl
  read_event-append (stylus_head e) p s whole come = rw (empty_of p whole) refl
  read_event-append (stylus_enable_head enable) p s whole come = rw (empty_of p whole) refl
  read_event-append (unicode_head code) p s whole come = rw (empty_of p whole) refl
  read_event-append (clipboard_enable_head enable) p s whole come = rw (empty_of p whole) refl
  read_event-append clipboard_announce_head p s whole come = rw (empty_of p whole) refl
  read_event-append (clipboard_send_head n) text s whole come = rw come (
      rw
        (
          take-append text s n (sym whole),
          drop-append text s n (sym whole),
          read_filled-whole text n (sym whole),
        )
        refl)
  read_event-append (gamepad_head button pressed x y axis) p s whole come =
      rw (empty_of p whole) refl

  -- A call that finds the frames: the events of some of the first, and the bytes of the others.
  abbrev IsServed : List (Frame V) → List (ActivityEvent V) × Bytes → Type 0
  IsServed fs (es, left) =
      (seen : List (Frame V)) × (behind : List (Frame V)) × (fs ≡ seen ++ behind)
      × (es ≡ map event_of seen)
      × (left ≡ wire abi behind)
      × (0 < length seen)

  -- One round that finds a whole frame.
  round_of :
      (is : IsAbi abi) (fuel : ℕ) (h : EventHeader V) (payload : Bytes) (fs : List (Frame V))
      → IsWhole abi (h, payload)
      → let (more, rest) = read_events abi fuel (wire abi fs) in
        read_events abi (suc fuel) (wire abi ((h, payload) ∷ fs)) ≡ (
          if ltb abi.size (length (wire abi fs))
          then (event_of (h, payload) ∷ more, rest)
          else (event_of (h, payload) ∷ [], wire abi fs))
  unfolding read_events
  round_of (pos, sized, decoded, prompt) fuel h payload fs (range, whole, come) =
      let tail = payload ++ wire abi fs in
      rw
        (
          take-append (abi.encode h) tail abi.size (sym (sized h)),
          drop-append (abi.encode h) tail abi.size (sym (sized h)),
          sized h,
          decoded h range,
          read_event-append h payload (wire abi fs) whole come,
          ==_refl abi.size,
        )
        refl

  IsServed-one :
      (f : Frame V) (fs : List (Frame V)) → IsServed (f ∷ fs) (event_of f ∷ [], wire abi fs)
  IsServed-one f fs = (f ∷ [], fs, refl, refl, refl, omega arith)

  IsServed-more :
      (f : Frame V) (fs : List (Frame V)) (r : List (ActivityEvent V) × Bytes)
      → IsServed fs r
      → IsServed (f ∷ fs) (event_of f ∷ r.0, r.1)
  IsServed-more f fs (es, left) (seen, behind, split, events, rest, some_) =
      (f ∷ seen, behind, ap (λ l. f ∷ l) split, ap (λ l. event_of f ∷ l) events, rest, omega arith)

  -- The last frame ends the call.
  read_events-IsServed :
      (is : IsAbi abi) (fuel : ℕ) (f : Frame V) (fs : List (Frame V))
      → length fs < fuel
      → All (IsWhole abi) (f ∷ fs)
      → IsServed (f ∷ fs) (read_events abi fuel (wire abi (f ∷ fs)))
  read_events-IsServed is zero f fs enough whole = absurd (omega arith)
  read_events-IsServed is (suc fuel) (h, p) [] enough (w, ws) =
      subst (IsServed ((h, p) ∷ [])) (sym (round_of is fuel h p [] w)) (
        if-elim (IsServed ((h, p) ∷ [])) (ltb abi.size 0) _ _
          (λ more. absurd (ground (arith, more))) (λ last. IsServed-one (h, p) []))
  read_events-IsServed is (suc fuel) (h, p) (g ∷ fs) enough (w, ws) =
      let rest = wire abi (g ∷ fs) in
      subst (IsServed ((h, p) ∷ g ∷ fs)) (sym (round_of is fuel h p (g ∷ fs) w)) (
        if-elim (IsServed ((h, p) ∷ g ∷ fs)) (ltb abi.size (length rest)) _ _
          (λ more.
            IsServed-more (h, p) (g ∷ fs) (read_events abi fuel rest)
              (read_events-IsServed is fuel g fs (omega arith) ws))
          (λ last. IsServed-one (h, p) (g ∷ fs)))

  -- A frame has a byte at least.
  pub wire-length : (is : IsAbi abi) (fs : List (Frame V)) → length fs ≤ length (wire abi fs)
  wire-length is [] = omega arith
  wire-length is ((h, p) ∷ fs) = omega (
    arith,
    is.0,
    is.1 h,
    length-append (abi.encode h) (p ++ wire abi fs),
    length-append p (wire abi fs),
    wire-length is fs,
  )

  serve-IsServed :
      (is : IsAbi abi) (f : Frame V) (fs : List (Frame V))
      → All (IsWhole abi) (f ∷ fs)
      → IsServed (f ∷ fs) (serve abi (wire abi (f ∷ fs)))
  serve-IsServed is f fs whole =
      read_events-IsServed is (length (wire abi (f ∷ fs))) f fs
        (omega (arith, wire-length is (f ∷ fs))) whole

  serve_all-step :
      (n : ℕ) (s : Bytes)
      → 0 < length s
      → let (es, left) = serve abi s in
        let (more, rest) = serve_all abi n left in serve_all abi (suc n) s ≡ (es ++ more, rest)
  unfolding serve_all
  serve_all-step n [] some_ = absurd (omega arith)
  serve_all-step n (b ∷ s) some_ = refl

  serve_all-none : (n : ℕ) → serve_all abi n [] ≡ ([], [])
  unfolding serve_all
  serve_all-none zero = refl
  serve_all-none (suc n) = refl

  All-behind :
      (seen behind : List (Frame V)) → All (IsWhole abi) (seen ++ behind) → All (IsWhole abi) behind
  All-behind [] behind whole = whole
  All-behind (f ∷ seen) behind (w, ws) = All-behind seen behind ws

  serve_all-served :
      (n : ℕ) (s : Bytes) (fs seen behind : List (Frame V))
      → 0 < length s
      → fs ≡ seen ++ behind
      → (serve abi s).0 ≡ map event_of seen
      → (serve abi s).1 ≡ wire abi behind
      → serve_all abi n (wire abi behind) ≡ (map event_of behind, [])
      → serve_all abi (suc n) s ≡ (map event_of fs, [])
  serve_all-served n s fs seen behind some_ split events rest next =
      serve_all-step n s some_
      ∙ rw (events, rest, next, split, map-append event_of seen behind) refl

  -- The frames are read one call after the other, and nothing is left.
  pub serve_all-wire :
      (is : IsAbi abi) (n : ℕ) (fs : List (Frame V))
      → length fs ≤ n
      → All (IsWhole abi) fs
      → serve_all abi n (wire abi fs) ≡ (map event_of fs, [])
  serve_all-wire is n [] enough whole = serve_all-none n
  serve_all-wire is zero (f ∷ fs) enough whole = absurd (omega arith)
  serve_all-wire is (suc n) (f ∷ fs) enough whole =
      let (seen, behind, split, events, rest, some_) = serve-IsServed is f fs whole in
      let shorter : length behind ≤ n = omega (arith, ap length split, length-append seen behind) in
      let next =
        serve_all-wire is n behind shorter
          (All-behind seen behind (subst (All (IsWhole abi)) split whole)) in
      serve_all-served n (wire abi (f ∷ fs)) (f ∷ fs) seen behind
        (omega (arith, wire-length is (f ∷ fs))) split events rest next
