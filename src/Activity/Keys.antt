-- ===== src/Activity/Keys.antt =====
-- A text of the activity from sendTextEvent of app/src/main/cpp/lorie/activity.c to the keys that
-- handleLorieEvents of app/src/main/cpp/lorie/cmdentrypoint.c presses for it.
use mathlib.Core.Path.{subst}
use termux_x11_extra.Base.{
  ℕ, ◌<◌, ◌≡◌, ◌≢◌, refl, sym, ap, List, [], ◌∷◌, ◌++◌, some, arith, map, length,
}
use termux_x11_extra.Text.{Bytes}
use termux_x11_extra.Text.Encoding.{IsText, encode_all}
use termux_x11_extra.Keyboard.Choice.{KeyEvent, Keyboard}
use termux_x11_extra.Keyboard.Events.{press_keysym}
use termux_x11_extra.Keyboard.Balance.{presses, releases, presses-append, releases-append}
use termux_x11_extra.Keyboard.Pairing.{IsPaired}
use termux_x11_extra.Channel.{Floats, ScreenSize}
use termux_x11_extra.Channel.Pointer.{no_axes}
use termux_x11_extra.Channel.Dispatch.{
  ActivityEvent, unicode, Action, queue_pointer, queue_key, queue_work, Channel, Host, type_unicode,
  handle_each, handle_events,
}
use termux_x11_extra.Channel.Typing.{type_unicode-balanced}
use termux_x11_extra.Activity.{Abi, IsAbi}
use termux_x11_extra.Activity.Send.{send_text_event, Tables, send_calls}
use termux_x11_extra.Activity.Serve.{serve_all}
use termux_x11_extra.Activity.Whole.{IsLibrary}
use termux_x11_extra.Activity.Typed.{IsUtf8, serve_all-typed}

-- The key events among the actions.
abbrev pub keys : {V : Type 0} → List (Action V) → List KeyEvent
keys [] = []
keys (queue_pointer e ∷ actions) = keys actions
keys (queue_key e ∷ actions) = e ∷ keys actions
keys (queue_work w ∷ actions) = keys actions

-- Each character has a symbol, and a key below 256 when its turn comes.
abbrev pub AreTypable : Host → List ℕ → Keyboard → Type 0
AreTypable host [] k = Unit
AreTypable host (cp ∷ cps) k =
    let s = press_keysym host.server (host.keysym_of cp) k in
    (host.keysym_of cp ≢ 0)
    × (s.key ≢ 0)
    × (s.key < 256)
    × AreTypable host cps (type_unicode host cp k).0

-- Each key is pressed as often as it is released, and each symbol is at one key at most.
abbrev pub AreBalanced : {V : Type 0} → ℕ → Channel V × List (Action V) → Type 0
AreBalanced j (c, actions) =
    (presses j (keys actions) ≡ releases j (keys actions)) × IsPaired c.keyboard.pressed

module _ {V : Type 0} where
  keys-append :
      (es : List KeyEvent) (actions : List (Action V))
      → keys (map queue_key es ++ actions) ≡ es ++ keys actions
  keys-append [] actions = refl
  keys-append (e ∷ es) actions = ap (λ l. e ∷ l) (keys-append es actions)

module _ {V : Type 0} (fp : Floats V) (size : ScreenSize) (host : Host) where
  balanced-append :
      (j : ℕ) (es : List KeyEvent) (r : Channel V × List (Action V))
      → presses j es ≡ releases j es
      → AreBalanced j r
      → AreBalanced j (r.0, map queue_key es ++ r.1)
  balanced-append j es (c, actions) same (all_same, paired) = (
    rw (keys-append es actions)
        (omega (arith, presses-append j es (keys actions), releases-append j es (keys actions))),
    paired,
  )

  handle_each-AreBalanced :
      (j : ℕ) (cps : List ℕ) (c : Channel V)
      → IsPaired c.keyboard.pressed
      → AreTypable host cps c.keyboard
      → AreBalanced j (handle_each fp size host (map unicode cps) c)
  unfolding handle_each
  handle_each-AreBalanced j [] c paired typable = (refl, paired)
  handle_each-AreBalanced j (cp ∷ cps) c paired (symbol, sent, small, more) =
      let (k, events) = type_unicode host cp c.keyboard in
      let (same, paired') = type_unicode-balanced host cp c.keyboard j paired symbol sent small in
      balanced-append j events
        (handle_each fp size host (map unicode cps) (record c { keyboard = k })) same
        (handle_each-AreBalanced j cps (record c { keyboard = k }) paired' more)

  -- A text in UTF-8 that the activity sends with a connection, where each character has a symbol, and a
  -- key below 256 is found for it when its turn comes: what the server reads from the socket
  -- presses every key as often as it releases it, and leaves every symbol at one key at most; this
  -- from a table in which every symbol is at one key at most.
  pub send_text_event-AreBalanced :
      (abi : Abi V) (t : Tables) (cps : List ℕ) (c : Channel V) (j : ℕ)
      → IsAbi abi
      → IsLibrary t
      → IsUtf8 t
      → IsText cps
      → IsPaired c.keyboard.pressed
      → AreTypable host cps c.keyboard
      → let s = send_calls abi t (send_text_event (some (encode_all cps)) ∷ []) in
        AreBalanced j (handle_events fp size host (serve_all abi (length s) s).0 c)
  unfolding handle_events
  send_text_event-AreBalanced abi t cps c j is library utf8 text paired typable =
      let p = c.pointers in
      subst (λ es. AreBalanced j (handle_events fp size host es c))
        (sym (
          ap (λ (r : List (ActivityEvent V) × Bytes). r.0)
            (serve_all-typed abi t cps is library utf8 text)))
        (handle_each-AreBalanced j cps (record c { pointers = record p { mask = no_axes } }) paired
          typable)
