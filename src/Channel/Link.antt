-- ===== src/Channel/Link.antt =====
-- The connection and the buffers that the activity knows, of app/src/main/cpp/lorie/cmdentrypoint.c:
-- lorieRegisterBuffer, lorieUnregisterBuffer, lorieSendSharedServerState, addFd, and the branch of
-- handleLorieEvents for an error. A buffer is known by its id.
use termux_x11_extra.Base.{
  ℕ, ◌≡◌, ◌≢◌, refl, ap, sym, Bool, true, false, not, ◌&&◌, ◌||◌, List, [], ◌∷◌, Option, none, some,
  ◌==◌, if◌then◌else◌, arith, if-elim,
}

-- conn_fd, none for -1, and the ids of registeredBuffers.
pub record Link : Type 0 where
  pub conn : Option ℕ
  pub registered : List ℕ

-- What is written to the socket.
pub data Message : Type 0 where
  add_buffer remove_buffer : ℕ → Message
  shared_state : ℕ → Message

-- LorieBufferList_findById
abbrev pub has_id : ℕ → List ℕ → Bool
has_id id [] = false
has_id id (b ∷ bs) = b == id || has_id id bs

-- LorieBuffer_removeFromList of the buffer with the id.
abbrev pub remove_id : ℕ → List ℕ → List ℕ
remove_id id [] = []
remove_id id (b ∷ bs) = let rest = remove_id id bs in if b == id then bs else b ∷ rest

abbrev pub is_connected : Option ℕ → Bool
is_connected none = false
is_connected (some fd) = true

-- lorieRegisterBuffer
unfoldable pub register_buffer : Link → ℕ → Link × List Message
register_buffer l id =
    if not (is_connected l.conn) || has_id id l.registered
    then (l, [])
    else (record l { registered = id ∷ l.registered }, add_buffer id ∷ [])

-- lorieUnregisterBuffer
unfoldable pub unregister_buffer : Link → ℕ → Link × List Message
unregister_buffer l id =
    if has_id id l.registered && is_connected l.conn
    then (record l { registered = remove_id id l.registered }, remove_buffer id ∷ [])
    else (l, [])

-- lorieSendSharedServerState
abbrev pub send_shared_state : Link → ℕ → Link × List Message
send_shared_state l memfd = if is_connected l.conn then (l, shared_state memfd ∷ []) else (l, [])

-- The branch of handleLorieEvents for an error, on whatever descriptor.
abbrev pub handle_error : Link → Link
handle_error l = record { conn = none; registered = [] }

-- addFd, without lorieActivityConnected.
abbrev pub add_fd : Link → ℕ → Link
add_fd l fd = record l { conn = some fd }

pub data LinkStep : Type 0 where
  registering unregistering sending connecting : ℕ → LinkStep
  failing : LinkStep

-- The list that the activity makes of the messages.
abbrev pub told : List Message → List ℕ → List ℕ
told [] view = view
told (add_buffer id ∷ ms) view = told ms (id ∷ view)
told (remove_buffer id ∷ ms) view = told ms (remove_id id view)
told (shared_state memfd ∷ ms) view = told ms view

-- The connection and the activity's list. An activity that connects knows no buffer.
abbrev pub link_step : LinkStep → Link × List ℕ → Link × List ℕ
link_step (registering id) (l, view) = let (l', ms) = register_buffer l id in (l', told ms view)
link_step (unregistering id) (l, view) = let (l', ms) = unregister_buffer l id in (l', told ms view)
link_step (sending memfd) (l, view) = let (l', ms) = send_shared_state l memfd in (l', told ms view)
link_step (connecting fd) (l, view) = (add_fd l fd, [])
link_step failing (l, view) = (handle_error l, [])

abbrev pub link_run : List LinkStep → Link × List ℕ → Link × List ℕ
link_run [] s = s
link_run (p ∷ ps) s = link_run ps (link_step p s)

-- The step is no new connection, or there is none before it.
abbrev pub IsAlone : LinkStep → Link → Type 0
IsAlone (connecting fd) l = l.conn ≡ none
IsAlone (registering id) l = Unit
IsAlone (unregistering id) l = Unit
IsAlone (sending memfd) l = Unit
IsAlone failing l = Unit

abbrev pub AreAlone : List LinkStep → Link × List ℕ → Type 0
AreAlone [] s = Unit
AreAlone (p ∷ ps) s = IsAlone p s.0 × AreAlone ps (link_step p s)

-- Each id stands once.
abbrev pub AreOnce : List ℕ → Type 0
AreOnce [] = Unit
AreOnce (b ∷ bs) = (has_id b bs ≡ false) × AreOnce bs

-- The activity has the list of the server, without repetition; without a connection it is empty.
abbrev pub IsMirrored : Link × List ℕ → Type 0
IsMirrored (l, view) =
    (view ≡ l.registered) × AreOnce l.registered × (l.conn ≡ none → l.registered ≡ [])

has_id-remove_id :
    (id b : ℕ) (bs : List ℕ) → has_id b bs ≡ false → has_id b (remove_id id bs) ≡ false
has_id-remove_id id b [] absent = refl
has_id-remove_id id b (c ∷ bs) absent = ground (arith, has_id-remove_id id b bs)

remove_id-AreOnce : (id : ℕ) (bs : List ℕ) → AreOnce bs → AreOnce (remove_id id bs)
remove_id-AreOnce id [] once = tt
remove_id-AreOnce id (b ∷ bs) (absent, once) =
    if-elim AreOnce (b == id) _ _ (λ _. once)
      (λ _. (has_id-remove_id id b bs absent, remove_id-AreOnce id bs once))

connected-none : (o : Option ℕ) → is_connected o ≡ true → o ≢ none
connected-none none is e = cc
connected-none (some fd) is e = cc

registering-IsMirrored :
    (id : ℕ) (s : Link × List ℕ) → IsMirrored s → IsMirrored (link_step (registering id) s)
unfolding register_buffer
registering-IsMirrored id (l, view) (same, once, empty) =
    if-elim (λ (r : Link × List Message). IsMirrored (r.0, told r.1 view))
      (not (is_connected l.conn) || has_id id l.registered) _ _ (λ _. (same, once, empty))
      (λ free. (
        ap (λ v. id ∷ v) same,
        (ground (arith, free), once),
        λ e. absurd (connected-none l.conn (ground (arith, free)) e),
      ))

unregistering-IsMirrored :
    (id : ℕ) (s : Link × List ℕ) → IsMirrored s → IsMirrored (link_step (unregistering id) s)
unfolding unregister_buffer
unregistering-IsMirrored id (l, view) (same, once, empty) =
    if-elim (λ (r : Link × List Message). IsMirrored (r.0, told r.1 view))
      (has_id id l.registered && is_connected l.conn) _ _
      (λ found. (
        ap (remove_id id) same,
        remove_id-AreOnce id l.registered once,
        λ e. absurd (connected-none l.conn (ground (arith, found)) e),
      ))
      (λ _. (same, once, empty))

link_step-IsMirrored :
    (p : LinkStep) (s : Link × List ℕ) → IsAlone p s.0 → IsMirrored s → IsMirrored (link_step p s)
link_step-IsMirrored (registering id) s alone mirrored = registering-IsMirrored id s mirrored
link_step-IsMirrored (unregistering id) s alone mirrored = unregistering-IsMirrored id s mirrored
link_step-IsMirrored (sending memfd) (l, view) alone mirrored =
    if-elim (λ (r : Link × List Message). IsMirrored (r.0, told r.1 view)) (is_connected l.conn) _ _
      (λ _. mirrored) (λ _. mirrored)
link_step-IsMirrored (connecting fd) (l, view) alone (same, once, empty) =
    (sym (empty alone), once, λ e. cc)
link_step-IsMirrored failing (l, view) alone mirrored = (refl, tt, λ e. refl)

-- In any sequence of registrations, removals, failures and connections, none of which comes while
-- there is a connection, the activity's list is the server's, and has each buffer once.
pub link_run-IsMirrored :
    (ps : List LinkStep) (s : Link × List ℕ)
    → AreAlone ps s
    → IsMirrored s
    → IsMirrored (link_run ps s)
link_run-IsMirrored [] s alone mirrored = mirrored
link_run-IsMirrored (p ∷ ps) s alone mirrored =
    link_run-IsMirrored ps (link_step p s) alone.1 (link_step-IsMirrored p s alone.0 mirrored)
