-- ===== src/Channel/Touch.antt =====
-- handleTouchEvent of app/src/main/cpp/lorie/cmdentrypoint.c: the touch events that are queued for the X
-- server, and their order.
use mathlib.Core.Path.{subst}
use termux_x11_extra.Base.{
  ℕ, min, ◌≡◌, ◌⊎◌, refl, Bool, true, false, not, ◌&&◌, List, [], ◌∷◌, Option, none, some, ◌==◌,
  if◌then◌else◌, arith, if-elim,
}
use termux_x11_extra.Channel.{Floats, ScreenSize}

-- XI_TouchBegin, XI_TouchUpdate and XI_TouchEnd
abbrev pub touch_begin : ℕ
touch_begin = 18

abbrev pub touch_update : ℕ
touch_update = 19

abbrev pub touch_end : ℕ
touch_end = 20

-- The event of the activity.
pub record TouchEvent : Type 0 where
  pub type : ℕ
  pub id : ℕ
  pub x : ℕ
  pub y : ℕ

-- DDXTouchPointInfo, with the valuators that can be fetched.
pub record TouchPoint (V : Type 0) : Type 0 where
  pub active : Bool
  pub x : Option V
  pub y : Option V

-- What QueueTouchEvents is called with.
pub record QueuedTouch (V : Type 0) : Type 0 where
  pub type : ℕ
  pub id : ℕ
  pub x : V
  pub y : V

module _ {V : Type 0} (fp : Floats V) (screen : ScreenSize) where
  abbrev pub is_active : Option (TouchPoint V) → Bool
  is_active none = false
  is_active (some t) = t.active

  abbrev pub is_at : Option V → ℕ → Bool
  is_at none x = false
  is_at (some v) x = fp.is_same v (fp.of_number x)

  -- The touch has not moved.
  abbrev pub is_still : Option (TouchPoint V) → ℕ → ℕ → Bool
  is_still none x y = false
  is_still (some t) x y = t.active && (is_at t.x x && is_at t.y y)

  -- An update of a touch that is not active begins it.
  abbrev pub type_of : ℕ → Bool → ℕ
  type_of type active = if type == touch_update && not active then touch_begin else type

  -- handleTouchEvent; the function is TouchFindByDDXID.
  unfoldable pub handle_touch : (ℕ → Option (TouchPoint V)) → TouchEvent → Option (QueuedTouch V)
  handle_touch touches e =
      let x = min e.x screen.width in
      let y = min e.y screen.height in
      let active = is_active (touches e.id) in
      if e.type == touch_update && is_still (touches e.id) x y
      then none
      else if type_of e.type active == touch_end && not active
      then none
      else some (record {
        type = type_of e.type active;
        id = e.id;
        x = fp.scaled x screen.width;
        y = fp.scaled y screen.height;
      })

  -- The queued event, where there is one, and the events after it.
  abbrev pub queue_touch :
      ((ℕ → Option (TouchPoint V)) → QueuedTouch V → ℕ → Option (TouchPoint V))
      → (ℕ → Option (TouchPoint V))
      → Option (QueuedTouch V)
      → ((ℕ → Option (TouchPoint V)) → List (QueuedTouch V))
      → List (QueuedTouch V)
  queue_touch apply touches none rest = rest touches
  queue_touch apply touches (some q) rest = q ∷ rest (apply touches q)

  -- A sequence of events; `apply` is what the X server does with a queued event.
  unfoldable pub handle_touches :
      ((ℕ → Option (TouchPoint V)) → QueuedTouch V → ℕ → Option (TouchPoint V))
      → (ℕ → Option (TouchPoint V))
      → List TouchEvent
      → List (QueuedTouch V)
  unfolding handle_touch
  handle_touches apply touches [] = []
  handle_touches apply touches (e ∷ es) =
      queue_touch apply touches (handle_touch touches e) (λ t. handle_touches apply t es)

  -- Which touches are active after a queued event.
  abbrev pub activity : (ℕ → Bool) → QueuedTouch V → ℕ → Bool
  activity active q id =
      if id == q.id
      then if q.type == touch_begin then true else if q.type == touch_end then false else active id
      else active id

  -- An update or an end is queued for an active touch only.
  abbrev pub IsOrdered : (ℕ → Bool) → List (QueuedTouch V) → Type 0
  IsOrdered active [] = Unit
  IsOrdered active (q ∷ qs) =
      ((q.type ≡ touch_update) ⊎ (q.type ≡ touch_end) → active q.id ≡ true)
      × IsOrdered (activity active q) qs

  type_of-active :
      (type : ℕ) (active : Bool)
      → (type_of type active == touch_end && not active) ≡ false
      → (type_of type active ≡ touch_update) ⊎ (type_of type active ≡ touch_end)
      → active ≡ true
  type_of-active type true kept moved = refl
  type_of-active type false kept moved = ground (arith, moved)

  IsOrdered-cons :
      (apply : (ℕ → Option (TouchPoint V)) → QueuedTouch V → ℕ → Option (TouchPoint V))
      (touches : ℕ → Option (TouchPoint V)) (e : TouchEvent)
      (rest : (ℕ → Option (TouchPoint V)) → List (QueuedTouch V))
      → ((t : ℕ → Option (TouchPoint V)) → IsOrdered (λ id. is_active (t id)) (rest t))
      → ((t : ℕ → Option (TouchPoint V)) (q : QueuedTouch V) (id : ℕ)
          → is_active (apply t q id) ≡ activity (λ i. is_active (t i)) q id)
      → IsOrdered
          (λ id. is_active (touches id))
          (queue_touch apply touches (handle_touch touches e) rest)
  unfolding handle_touch
  IsOrdered-cons apply touches e rest more follows =
      let P = λ (o : Option (QueuedTouch V)).
        IsOrdered (λ id. is_active (touches id)) (queue_touch apply touches o rest) in
      let active = is_active (touches e.id) in
      let x = min e.x screen.width in
      let y = min e.y screen.height in
      let q : QueuedTouch V = record {
        type = type_of e.type active;
        id = e.id;
        x = fp.scaled x screen.width;
        y = fp.scaled y screen.height;
      } in
      let later : IsOrdered (activity (λ id. is_active (touches id)) q) (rest (apply touches q)) =
        subst (λ a. IsOrdered a (rest (apply touches q))) (λ i id. follows touches q id i)
          (more (apply touches q)) in
      if-elim P (e.type == touch_update && is_still (touches e.id) x y) none _ (λ _. more touches)
        (λ _.
          if-elim P (type_of e.type active == touch_end && not active) none (some q)
            (λ _. more touches) (λ kept. (type_of-active e.type active kept, later)))

  -- Where the X server's touches are active from a queued begin to a queued end, no sequence of
  -- events of the activity makes handleTouchEvent queue an update or an end of a touch that is not
  -- active.
  pub handle_touches-IsOrdered :
      (apply : (ℕ → Option (TouchPoint V)) → QueuedTouch V → ℕ → Option (TouchPoint V))
      (touches : ℕ → Option (TouchPoint V)) (es : List TouchEvent)
      → ((t : ℕ → Option (TouchPoint V)) (q : QueuedTouch V) (id : ℕ)
          → is_active (apply t q id) ≡ activity (λ i. is_active (t i)) q id)
      → IsOrdered (λ id. is_active (touches id)) (handle_touches apply touches es)
  unfolding handle_touches
  handle_touches-IsOrdered apply touches [] follows = tt
  handle_touches-IsOrdered apply touches (e ∷ es) follows =
      IsOrdered-cons apply touches e (λ t. handle_touches apply t es)
        (λ t. handle_touches-IsOrdered apply t es follows) follows
