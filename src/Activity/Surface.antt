-- ===== src/Activity/Surface.antt =====
-- surfaceChanged of app/src/main/cpp/lorie/activity.c: a surface goes to the renderer, which holds a reference
-- to its window.
use termux_x11_extra.Base.{
  ℕ, ◌+◌, ◌≡◌, true, ◌&&◌, List, [], ◌∷◌, ◌++◌, Option, none, some, arith, ◌==◌, count-append, All,
}
use termux_x11_extra.Renderer.Windows.{
  Window, null, given, Windows, Egl, set_window, refresh, refs, returned, set_window-refs,
  refresh-refs,
}

-- The window of the surface; none for the surface NULL.
abbrev pub window_of : Option ℕ → Window
window_of none = null
window_of (some n) = given n

-- A reference of ANativeWindow_fromSurface, which takes one, and one of ANativeWindow_acquire.
abbrev pub taken_refs : ℕ → Option ℕ → ℕ
taken_refs n surface = refs n (window_of surface) + refs n (window_of surface)

-- surfaceChanged. rendererSetWindow returns once the renderer's thread has called
-- rendererRefreshContext.
unfoldable pub surface_changed : Egl → Option ℕ → Windows → Windows × List ℕ
unfolding set_window refresh
surface_changed e surface w =
    let (w1, replaced) = set_window (window_of surface) w in
    let (w2, log) = refresh e w1 in (w2, replaced ++ log)

unfoldable pub surfaces_run : List (Egl × Option ℕ) → Windows → Windows × List ℕ
unfolding surface_changed
surfaces_run [] w = (w, [])
surfaces_run ((e, surface) ∷ ss) w =
    let (w1, log) = surface_changed e surface w in
    let (w2, more) = surfaces_run ss w1 in (w2, log ++ more)

abbrev pub taken_all : ℕ → List (Egl × Option ℕ) → ℕ
taken_all n [] = 0
taken_all n ((e, surface) ∷ ss) = taken_refs n surface + taken_all n ss

-- How many of the surfaces have the window.
abbrev pub shown_times : ℕ → List (Egl × Option ℕ) → ℕ
shown_times n [] = 0
shown_times n ((e, surface) ∷ ss) = refs n (window_of surface) + shown_times n ss

-- EGL lets the old surface go.
abbrev pub LetsGo : Egl × Option ℕ → Type 0
LetsGo (e, surface) = (e.default_current && e.destroyed) ≡ true

surface_changed-refs :
    (n : ℕ) (e : Egl) (surface : Option ℕ) (w : Windows)
    → (e.default_current && e.destroyed) ≡ true
    → let (w', log) = surface_changed e surface w in
      refs n w'.win + refs n w'.pending + returned n log
      ≡ refs n w.win + refs n w.pending + refs n (window_of surface)
unfolding surface_changed
surface_changed-refs n e surface w ok =
    let (w1, replaced) = set_window (window_of surface) w in
    omega (
      arith,
      set_window-refs n (window_of surface) w,
      refresh-refs n e w1 ok,
      count-append (λ m. m == n) replaced (refresh e w1).1,
    )

-- Over any surfaces, where EGL lets each old surface go, for every window: of the references that are
-- held at the start and taken, all are held or given back at the end but one for each surface with
-- the window.
pub surfaces_run-refs :
    (n : ℕ) (ss : List (Egl × Option ℕ)) (w : Windows)
    → All LetsGo ss
    → let (w', log) = surfaces_run ss w in
      refs n w'.win + refs n w'.pending + returned n log + shown_times n ss
      ≡ refs n w.win + refs n w.pending + taken_all n ss
unfolding surfaces_run
surfaces_run-refs n [] w ok = omega arith
surfaces_run-refs n ((e, surface) ∷ ss) w (ok, oks) =
    let (w1, log) = surface_changed e surface w in
    omega (
      arith,
      surface_changed-refs n e surface w ok,
      surfaces_run-refs n ss w1 oks,
      count-append (λ m. m == n) log (surfaces_run ss w1).1,
    )
