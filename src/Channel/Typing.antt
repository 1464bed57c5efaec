-- ===== src/Channel/Typing.antt =====
-- EVENT_UNICODE of handleLorieEvents, app/src/main/cpp/lorie/cmdentrypoint.c, by way of InputXKB.c: a
-- character is typed and no key stays down.
use termux_x11_extra.Base.{ℕ, ◌<◌, ◌≡◌, ◌≢◌, sym, [], ◌∷◌, ◌++◌, arith}
use mathlib.Core.Path.{subst}
use termux_x11_extra.Keyboard.Choice.{release, Keyboard, Server}
use termux_x11_extra.Keyboard.Events.{press_keysym}
use termux_x11_extra.Keyboard.Balance.{
  presses, releases, presses-append, releases-append, press_keysym-balanced,
}
use termux_x11_extra.Keyboard.Pairing.{IsPaired, press_release-IsPaired}
use termux_x11_extra.Keyboard.Between.{keysym_events, release-press_keysym}
use termux_x11_extra.Channel.Dispatch.{Host, type_unicode}

-- The press and the release of a symbol, with the key that the press sent.
typed-balanced :
    (sv : Server) (keysym : ℕ) (k : Keyboard) (j : ℕ)
    → let s = press_keysym sv keysym k in
      s.key ≢ 0
      → presses j (s.events ++ release s.key ∷ []) ≡ releases j (s.events ++ release s.key ∷ [])
typed-balanced sv keysym k j sent =
    let s = press_keysym sv keysym k in
    omega (
      arith,
      press_keysym-balanced sv keysym k j sent,
      presses-append j s.events (release s.key ∷ []),
      releases-append j s.events (release s.key ∷ []),
    )

-- A typed character whose symbol is not NoSymbol and for which a key below 256 is sent presses every
-- key as often as it releases it, the modifiers included, and leaves every symbol at one key at
-- most; this from a table in which every symbol is at one key at most.
pub type_unicode-balanced :
    (host : Host) (code : ℕ) (k : Keyboard) (j : ℕ)
    → let s = press_keysym host.server (host.keysym_of code) k in
      let typed = type_unicode host code k in
      IsPaired k.pressed
      → host.keysym_of code ≢ 0
      → s.key ≢ 0
      → s.key < 256
      → (presses j typed.1 ≡ releases j typed.1) × IsPaired typed.0.pressed
unfolding type_unicode keysym_events
type_unicode-balanced host code k j paired nonzero sent small =
    let keysym = host.keysym_of code in
    let s = press_keysym host.server keysym k in
    let up =
      release-press_keysym host.server host.server host.server keysym k [] paired nonzero sent small
        tt in
    (
      subst (λ es. presses j (s.events ++ es) ≡ releases j (s.events ++ es)) (sym up)
          (typed-balanced host.server keysym k j sent),
      (press_release-IsPaired host.server keysym s.keyboard
          (press_release-IsPaired host.server keysym k paired).0).1,
    )
