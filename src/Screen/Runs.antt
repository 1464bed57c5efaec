-- ===== src/Screen/Runs.antt =====
-- The size of the screen and the connection over time, app/src/main/cpp/lorie/InitOutput.c: the root window
-- stays shown.
use mathlib.Core.Path.{subst}
use termux_x11_extra.Base.{
  ℕ, ◌≡◌, sym, true, false, List, [], ◌∷◌, Option, none, some, ◌==◌, inl, inr, Option-cases,
}
use termux_x11_extra.Base.Int.{pos}
use termux_x11_extra.Buffer.{LorieBuffer, Locking}
use termux_x11_extra.Buffer.Create.{allocate_own}
use termux_x11_extra.Vblank.{perform_vblanks}
use termux_x11_extra.Access.{lock_buffer}
use termux_x11_extra.Channel.Link.{Link, send_shared_state, handle_error, add_fd}
use termux_x11_extra.Screen.{Settings, Display}
use termux_x11_extra.Screen.Pixmaps.{
  blank, buffer_type, buffer_format, create_pixmap, activity_connected,
}
use termux_x11_extra.Screen.Shown.{
  IsRegistered, screen_buffer, IsShown, IsLocked, IsResized, with_new-IsResized, create_pixmap-made,
  register_screen-IsShown, lock-locked,
}
use termux_x11_extra.Screen.Resize.{Resizing, Resized, crash, resized, with_new, resize}

-- The display from the call of present_restore_screen_pixmap on.
abbrev pub restored : Resizing → Display → Display
restored z d = z.restore (record d { present = (perform_vblanks z.clock d.present).0 })

-- What LorieBuffer_allocate returns for the new pixmap.
abbrev pub allocated : Resizing → ℕ → ℕ → Display → Option LorieBuffer
allocated z width height d =
    (allocate_own z.making.system d.counter (pos width) (pos height) (buffer_format d.settings)
      (buffer_type d.settings true)).made

abbrev pub IsThere : Option LorieBuffer → Type 0
IsThere none = ⊥
IsThere (some b) = Unit

-- The X server gives the root window the screen's pixmap back; a new pixmap has another number.
abbrev pub IsRestored : ℕ → Display → Type 0
IsRestored fresh d =
    (old : ℕ) × (d.root_pixmap ≡ some old) × (d.screen_pixmap ≡ some old) × ((fresh == old) ≡ false)

-- The size is not 0 and the memory for the new pixmap and its buffer is there.
abbrev pub CanResize : Resizing → ℕ → ℕ → Display → Type 0
CanResize z width height d =
    (z.making.has_memory ≡ true)
    × ((width == 0) ≡ false)
    × ((height == 0) ≡ false)
    × IsThere (allocated z width height (restored z d))
    × IsRestored z.making.fresh (restored z d)

fresh-IsLocked : (l : Locking) (b : LorieBuffer) → IsLocked (lock_buffer l blank (some b)).0.buffer
fresh-IsLocked l b = lock-locked l b

-- A change of the size, where it is not 0, the memory for the new pixmap and its buffer is there, the X
-- server gives the root window the screen's pixmap back and the new pixmap another number: the settings
-- have the new size and are otherwise as before; the root window has the pixmap of the screen; its
-- buffer is locked; and with a connection it is registered.
pub resize-IsResized :
    (z : Resizing) (width height : ℕ) (d : Display)
    → CanResize z width height d
    → IsResized width height (restored z d).settings (resize z width height d)
unfolding resize
resize-IsResized z width height d (memory, wide, high, there, (old, root, screen, other)) =
    let d1 = restored z d in
    let d2 : Display = record d1 {
      settings = record d1.settings { width = width; height = height };
    } in
    elim (Option-cases (allocated z width height d1)) [
      | inl failed ↦ absurd (subst IsThere failed there)
      | inr (b, made) ↦
          let new = create_pixmap z.making d2.settings d2.counter true width height in
          subst
            (λ o.
              IsResized width height d1.settings
                (with_new z (perform_vblanks z.clock d.present).1 new d2 o))
            (sym (
              create_pixmap-made z.making d2.settings d2.counter width height b memory wide high
                made))
            (with_new-IsResized z (perform_vblanks z.clock d.present).1 new d2 old
              (lock_buffer z.making.locking blank (some b)).0 root screen other
              (fresh-IsLocked z.making.locking b))
    ]

-- A connection is made and told about, or lost.
pub data ScreenStep : Type 0 where
  resizing : Resizing → ℕ → ℕ → ScreenStep
  connecting : ℕ → ℕ → ScreenStep  -- the descriptor, and stateFd
  failing : ScreenStep

abbrev pub display_of : Resized → Option Display
display_of crash = none
display_of (resized d notices messages log) = some d

-- none for a crash.
unfoldable pub screen_step : ScreenStep → Display → Option Display
unfolding resize activity_connected
screen_step (resizing z width height) d = display_of (resize z width height d)
screen_step (connecting fd memfd) d =
    some (activity_connected memfd (record d { link = add_fd d.link fd })).0
screen_step failing d = some (record d { link = handle_error d.link })

abbrev pub IsPossible : ScreenStep → Display → Type 0
IsPossible (resizing z width height) d = CanResize z width height d
IsPossible (connecting fd memfd) d = d.link.conn ≡ none
IsPossible failing d = Unit

abbrev pub then_run : (Display → Option Display) → Option Display → Option Display
then_run f none = none
then_run f (some d) = f d

unfoldable pub screen_run : List ScreenStep → Display → Option Display
unfolding screen_step
screen_run [] d = some d
screen_run (p ∷ ps) d = then_run (screen_run ps) (screen_step p d)

abbrev pub IfAny : (Display → Type 0) → Option Display → Type 0
IfAny P none = Unit
IfAny P (some d) = P d

abbrev pub ArePossible : List ScreenStep → Display → Type 0
ArePossible [] d = Unit
ArePossible (p ∷ ps) d = IsPossible p d × IfAny (ArePossible ps) (screen_step p d)

-- There is no crash, and the screen is shown.
abbrev pub IsShownAfter : Option Display → Type 0
IsShownAfter none = ⊥
IsShownAfter (some d) = IsShown d

IsResized-IsShownAfter :
    (width height : ℕ) (s : Settings) (r : Resized)
    → IsResized width height s r
    → IsShownAfter (display_of r)
IsResized-IsShownAfter width height s crash is = absurd is
IsResized-IsShownAfter width height s (resized d notices messages log) (same, shown) = shown

failing-IsRegistered : (l : Link) (o : Option LorieBuffer) → IsRegistered (handle_error l) o
failing-IsRegistered l none = tt
failing-IsRegistered l (some b) = λ connected. cc

screen_step-IsShownAfter :
    (p : ScreenStep) (d : Display) → IsPossible p d → IsShown d → IsShownAfter (screen_step p d)
unfolding screen_step activity_connected
screen_step-IsShownAfter (resizing z width height) d can shown =
    IsResized-IsShownAfter width height (restored z d).settings (resize z width height d)
      (resize-IsResized z width height d can)
screen_step-IsShownAfter (connecting fd memfd) d can (same, locked, registered) =
    register_screen-IsShown
      (record d {
        draw_requested = true;
        cursor_updated = true;
        link = (send_shared_state (add_fd d.link fd) memfd).0;
      })
      same locked
screen_step-IsShownAfter failing d can (same, locked, registered) =
    (same, locked, failing-IsRegistered d.link (screen_buffer d))

then_run-IsShownAfter :
    (f : Display → Option Display) (P : Display → Type 0) (o : Option Display)
    → IfAny P o
    → IsShownAfter o
    → ((d : Display) → P d → IsShown d → IsShownAfter (f d))
    → IsShownAfter (then_run f o)
then_run-IsShownAfter f P none possible shown next = absurd shown
then_run-IsShownAfter f P (some d) possible shown next = next d possible shown

-- A screen that is shown stays so over any changes of its size, which the memory is there for, and any
-- connections that are made and lost, a new one after the end of the old one: the root window has the
-- pixmap of the screen, whose buffer is locked, and with a connection the buffer is in the list of those
-- that were sent over it. There is no crash.
pub screen_run-IsShownAfter :
    (ps : List ScreenStep) (d : Display)
    → ArePossible ps d
    → IsShown d
    → IsShownAfter (screen_run ps d)
unfolding screen_run
screen_run-IsShownAfter [] d possible shown = shown
screen_run-IsShownAfter (p ∷ ps) d (possible, more) shown =
    then_run-IsShownAfter (screen_run ps) (ArePossible ps) (screen_step p d) more
      (screen_step-IsShownAfter p d possible shown) (screen_run-IsShownAfter ps)
