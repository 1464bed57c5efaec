-- ===== src/Renderer/Windows.antt =====
-- The windows of the renderer, app/src/main/cpp/lorie/renderer.c: rendererSetWindow,
-- releaseWinAndSurface and rendererRefreshContext, with the references to windows that they give back.
use termux_x11_extra.Base.{
  ℕ, ◌+◌, ◌≡◌, refl, Bool, true, false, not, ◌&&◌, List, [], ◌∷◌, ◌++◌, Option, none, some, arith,
  ◌==◌, if◌then◌else◌, count, count-append,
}
use termux_x11_extra.Renderer.{Shared}

-- An ANativeWindow pointer.
pub data Window : Type 0 where
  null default_window : Window
  given : ℕ → Window

pub data Surface : Type 0 where
  no_surface default_surface window_surface : Surface

-- The variables `win`, `pendingWin`, `sfc`, `windowChanged` and `state`.
pub record Windows : Type 0 where
  pub win : Window
  pub pending : Window
  pub surface : Surface
  pub changed : Bool
  pub state : Option Shared

-- What EGL and Android answer: to making the default surface current and destroying the old one, to
-- creating a surface for the new window and making it current; whether a window has a size.
pub record Egl : Type 0 where
  pub default_current : Bool
  pub destroyed : Bool
  pub created : Bool
  pub made_current : Bool
  pub has_size : ℕ → Bool

-- ANativeWindow_release of a window that the activity has given.
abbrev pub gave_window : Window → List ℕ
gave_window null = []
gave_window default_window = []
gave_window (given n) = n ∷ []

abbrev pub is_given : Window → ℕ → Bool
is_given null n = false
is_given default_window n = false
is_given (given m) n = m == n

-- rendererSetWindow up to the wait. The default window is the renderer's own and is never passed.
abbrev pub replace_pending : Window → Windows → Windows × List ℕ
replace_pending new w = (record w { pending = new; changed = true }, gave_window w.pending)

unfoldable pub set_window : Window → Windows → Windows × List ℕ
set_window null w = replace_pending null w
set_window default_window w = replace_pending default_window w
set_window (given n) w = if is_given w.pending n then (w, n ∷ []) else replace_pending (given n) w

-- The second half of releaseWinAndSurface: the pointer after it, and what was given back.
abbrev pub release_window : Window → Window × List ℕ
release_window null = (null, [])
release_window default_window = (default_window, [])
release_window (given n) = (default_window, n ∷ [])

-- releaseWinAndSurface(&win, &sfc)
abbrev pub release_both : Egl → Window → Surface → Window × Surface × List ℕ
release_both e win window_surface =
    if e.default_current && e.destroyed
    then (let (win', log) = release_window win in (win', default_surface, log))
    else (win, window_surface, [])
release_both e win no_surface = let (win', log) = release_window win in (win', no_surface, log)
release_both e win default_surface =
    let (win', log) = release_window win in (win', default_surface, log)

-- The test of the new window's size.
abbrev pub check_pending : Egl → Window → Window × List ℕ
check_pending e null = (null, [])
check_pending e default_window = (default_window, [])
check_pending e (given n) = if e.has_size n then (given n, []) else (default_window, n ∷ [])

abbrev pub unavailable : Option Shared → Option Shared
unavailable none = none
unavailable (some s) = some (record s { surface_available = false })

abbrev pub is_default : Window → Bool
is_default null = false
is_default default_window = true
is_default (given n) = false

abbrev pub available : Bool → Option Shared → Option Shared
available on none = none
available on (some s) =
    some (record s { surface_available = on; draw_requested = on; cursor_updated = on })

-- rendererRefreshContext from the test `if (!win)` on.
abbrev pub open_window : Egl → Window → Surface → Option Shared → Windows
open_window e null sfc state = record {
  win = default_window;
  pending = null;
  surface = sfc;
  changed = false;
  state = unavailable state;
}
open_window e win sfc state = record {
  win = win;
  pending = null;
  surface = if e.created then window_surface else no_surface;
  changed = false;
  state =
      if e.created
      then (if e.made_current then available (not (is_default win)) state else unavailable state)
      else state;
}

-- rendererRefreshContext
unfoldable pub refresh : Egl → Windows → Windows × List ℕ
refresh e w =
    let (old, sfc, log) = release_both e w.win w.surface in
    let (new, log') = check_pending e w.pending in (open_window e new sfc w.state, log ++ log')

-- The references to the window `n` that are held.
abbrev pub refs : ℕ → Window → ℕ
refs n null = 0
refs n default_window = 0
refs n (given m) = if m == n then 1 else 0

abbrev pub returned : ℕ → List ℕ → ℕ
returned n = count (λ m. m == n)

gave_window-returned : (n : ℕ) (w : Window) → returned n (gave_window w) ≡ refs n w
gave_window-returned n null = refl
gave_window-returned n default_window = refl
gave_window-returned n (given m) = ground arith

is_given-refs : (n m : ℕ) (w : Window) → is_given w m ≡ true → refs n w ≡ refs n (given m)
is_given-refs n m null is = cc
is_given-refs n m default_window is = cc
is_given-refs n m (given k) is = ground arith

-- Taking a new window: for every window, the references that were held and given are held or given
-- back.
pub set_window-refs :
    (n : ℕ) (new : Window) (w : Windows)
    → let (w', log) = set_window new w in
      refs n w'.win + refs n w'.pending + returned n log
      ≡ refs n w.win + refs n w.pending + refs n new
unfolding set_window
set_window-refs n null w = omega (arith, gave_window-returned n w.pending)
set_window-refs n default_window w = omega (arith, gave_window-returned n w.pending)
set_window-refs n (given m) w =
    ground (arith, gave_window-returned n w.pending, is_given-refs n m w.pending)

release_both-refs :
    (n : ℕ) (e : Egl) (win : Window) (sfc : Surface)
    → (e.default_current && e.destroyed) ≡ true
    → returned n (release_both e win sfc).2 ≡ refs n win
release_both-refs n e null no_surface ok = refl
release_both-refs n e null default_surface ok = refl
release_both-refs n e null window_surface ok = ground arith
release_both-refs n e default_window no_surface ok = refl
release_both-refs n e default_window default_surface ok = refl
release_both-refs n e default_window window_surface ok = ground arith
release_both-refs n e (given m) no_surface ok = ground arith
release_both-refs n e (given m) default_surface ok = ground arith
release_both-refs n e (given m) window_surface ok = ground arith

open_window-refs :
    (n : ℕ) (e : Egl) (win : Window) (sfc : Surface) (state : Option Shared)
    → let w = open_window e win sfc state in refs n w.win + refs n w.pending ≡ refs n win
open_window-refs n e null sfc state = refl
open_window-refs n e default_window sfc state = refl
open_window-refs n e (given m) sfc state = ground arith

check_pending-refs :
    (n : ℕ) (e : Egl) (win : Window)
    → refs n (check_pending e win).0 + returned n (check_pending e win).1 ≡ refs n win
check_pending-refs n e null = refl
check_pending-refs n e default_window = refl
check_pending-refs n e (given m) = ground arith

-- A refresh in which EGL lets the old surface go: for every window, the references that were held are
-- held or given back, whether the new surface can be made or not.
pub refresh-refs :
    (n : ℕ) (e : Egl) (w : Windows)
    → (e.default_current && e.destroyed) ≡ true
    → let (w', log) = refresh e w in
      refs n w'.win + refs n w'.pending + returned n log ≡ refs n w.win + refs n w.pending
unfolding refresh
refresh-refs n e w ok =
    let (old, sfc, log) = release_both e w.win w.surface in
    let (new, log') = check_pending e w.pending in
    omega (
      arith,
      release_both-refs n e w.win w.surface ok,
      check_pending-refs n e w.pending,
      open_window-refs n e new sfc w.state,
      count-append (λ m. m == n) log log',
    )
