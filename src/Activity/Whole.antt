-- ===== src/Activity/Whole.antt =====
-- What app/src/main/cpp/lorie/activity.c writes is whole: the fields of each struct are in the range of their
-- types, and as many bytes follow as the struct says.
use mathlib.Core.Path.{subst}
use native.Mathlib.Nat.{mod-eq_of_lt}
use termux_x11_extra.Base.{
  ℕ, zero, suc, ◌-◌, ◌^◌, ◌<◌, ◌≤◌, ◌≡◌, ◌⊎◌, false, sym, refl, ap, List, [], ◌∷◌, Option, none,
  some, arith, ◌==◌, ltb, if◌then◌else◌, if-elim, length, drop, All,
}
use termux_x11_extra.Base.Int.{ℤ, pos, negsuc, is_zero}
use termux_x11_extra.Text.{Bytes}
use termux_x11_extra.Buffer.Receive.{is_minus_one}
use termux_x11_extra.Activity.{Abi, IsAbi, to_unsigned, signed_of, to_signed}
use termux_x11_extra.Activity.Send.{
  SendCall, set_clipboard_sync_enabled, send_clipboard_announce, send_clipboard_event,
  send_window_change, send_mouse_event, send_touch_event, send_stylus_event, request_stylus_enabled,
  send_key_event, send_text_event, send_gamepad_event, Wide, invalid, wide, Tables, text_name,
  plus_eight, text_characters, text_frames, max_value, frames,
}
use termux_x11_extra.Activity.Transfer.{IsWhole}

to_unsigned-bound : (w : ℕ) (z : ℤ) → 0 < 2 ^ w → to_unsigned w z < 2 ^ w
to_unsigned-bound w (pos n) positive = omega arith
to_unsigned-bound w (negsuc n) positive = omega arith

to_unsigned-signed_of : (w u : ℕ) → u < 2 ^ w → to_unsigned w (signed_of w u) ≡ u
to_unsigned-signed_of w u bound =
    if-elim (λ (z : ℤ). to_unsigned w z ≡ u) (ltb u (2 ^ (w - 1))) _ _ (λ _. mod-eq_of_lt bound)
      (λ _. let low : 2 ^ w - 1 - u < 2 ^ w = omega arith in omega (arith, mod-eq_of_lt low))

to_signed_idem : (w : ℕ) (z : ℤ) → 0 < 2 ^ w → to_signed w (to_signed w z) ≡ to_signed w z
to_signed_idem w z positive =
    ap (signed_of w) (to_unsigned-signed_of w (to_unsigned w z) (to_unsigned-bound w z positive))

-- The arrays and strings of Java are shorter than 2^31.
abbrev IsShort : Option Bytes → Type 0
IsShort none = Unit
IsShort (some b) = length b < 2 ^ 31

-- The texts fit the buffer of the socket.
abbrev pub IsPrompt : {V : Type 0} → Abi V → SendCall V → Type 0
IsPrompt abi (set_clipboard_sync_enabled enable) = Unit
IsPrompt abi send_clipboard_announce = Unit
IsPrompt abi (send_clipboard_event none) = Unit
IsPrompt abi (send_clipboard_event (some text)) = length text ≤ abi.room
IsPrompt abi (send_window_change width height framerate none) = Unit
IsPrompt abi (send_window_change width height framerate (some name)) = length name ≤ abi.room
IsPrompt abi (send_mouse_event x y which_button button_down relative) = Unit
IsPrompt abi (send_touch_event action id x y) = Unit
IsPrompt abi (send_stylus_event c) = Unit
IsPrompt abi (request_stylus_enabled enabled) = Unit
IsPrompt abi (send_key_event scan_code key_code key_down) = Unit
IsPrompt abi (send_text_event text) = Unit
IsPrompt abi (send_gamepad_event button pressed x y axis) = Unit

-- What the calls of Java are: short texts, and a key code inside the 304 entries of
-- android_to_linux_keycode where it is looked up.
abbrev pub IsJava : {V : Type 0} → SendCall V → Type 0
IsJava (set_clipboard_sync_enabled enable) = Unit
IsJava send_clipboard_announce = Unit
IsJava (send_clipboard_event text) = IsShort text
IsJava (send_window_change width height framerate name) = IsShort name
IsJava (send_mouse_event x y which_button button_down relative) = Unit
IsJava (send_touch_event action id x y) = Unit
IsJava (send_stylus_event c) = Unit
IsJava (request_stylus_enabled enabled) = Unit
IsJava (send_key_event scan_code key_code key_down) = (is_zero scan_code ≡ false) ⊎ (key_code < 304)
IsJava (send_text_event text) = Unit
IsJava (send_gamepad_event button pressed x y axis) = Unit

-- mbrtowc gives characters of Unicode.
abbrev pub IsCharacter : Wide → Type 0
IsCharacter invalid = Unit
IsCharacter (wide code n) = code < 0x110000

abbrev pub IsLibrary : Tables → Type 0
IsLibrary t = (p : Bytes) → IsCharacter (t.mbrtowc p)

module _ {V : Type 0} (abi : Abi V) (t : Tables) where
  text_frames-IsWhole :
      (cs : List ℕ) → All (λ c. c < 0x110000) cs → All (IsWhole abi) (text_frames {V = V} cs)
  text_frames-IsWhole [] _ = tt
  text_frames-IsWhole (c ∷ cs) (small, rest) =
      ((omega arith, refl, tt), text_frames-IsWhole cs rest)

  characters-small :
      (w : Wide) (rest : ℕ → List ℕ)
      → IsCharacter w
      → ((n : ℕ) → All (λ c. c < 0x110000) (rest n))
      → All
          (λ c. c < 0x110000)
          (elim w [
            | invalid ↦ []
            | wide code n ↦ let r = rest n in if n == 0 then [] else code ∷ r
          ])
  characters-small invalid rest small all = tt
  characters-small (wide code n) rest small all =
      if-elim (All (λ c. c < 0x110000)) (n == 0) _ _ (λ _. tt) (λ _. (small, all n))

  pub text_characters-small :
      (library : IsLibrary t) (fuel : ℕ) (p : Bytes)
      → All (λ c. c < 0x110000) (text_characters t fuel p)
  unfolding text_characters
  text_characters-small library zero p = tt
  text_characters-small library (suc fuel) [] = tt
  text_characters-small library (suc fuel) (c ∷ p) =
      if-elim (All (λ x. x < 0x110000)) (c == 0) _ _ (λ _. tt)
        (λ _.
          characters-small (t.mbrtowc (c ∷ p)) (λ n. text_characters t fuel (drop n (c ∷ p)))
            (library (c ∷ p)) (λ n. text_characters-small library fuel (drop n (c ∷ p))))

  name-prompt :
      (width height : ℤ) (name : Option Bytes)
      → IsPrompt abi (send_window_change width height (pos 0) name)
      → length (text_name width height name) ≤ abi.room
  name-prompt width height none prompt = omega arith
  name-prompt width height (some name) prompt = ground arith

  name-short :
      (width height : ℤ) (name : Option Bytes)
      → IsShort name
      → length (text_name width height name) < 2 ^ 64
  name-short width height none short = omega arith
  name-short width height (some name) short = ground arith

  pub frames-IsWhole :
      (library : IsLibrary t) (c : SendCall V)
      → IsAbi abi
      → IsJava c
      → IsPrompt abi c
      → All (IsWhole abi) (frames abi t c)
  unfolding frames
  frames-IsWhole library (set_clipboard_sync_enabled enable) is java prompt = ((tt, refl, tt), tt)
  frames-IsWhole library send_clipboard_announce is java prompt = ((tt, refl, tt), tt)
  frames-IsWhole library (send_clipboard_event none) is java prompt = tt
  frames-IsWhole library (send_clipboard_event (some text)) is java prompt = (
    (
      omega arith,
      omega arith,
      subst (λ n. abi.arrived n ≡ n) (sym (mod-eq_of_lt (omega (arith, java))))
          (is.3 (length text) prompt),
    ),
    tt,
  )
  frames-IsWhole library (send_window_change width height framerate name) is java prompt = (
    (
      (
        to_unsigned-bound 16 width (omega arith),
        to_unsigned-bound 16 height (omega arith),
        to_unsigned-bound 16 framerate (omega arith),
        name-short width height name java,
      ),
      refl,
      is.3 (length (text_name width height name)) (name-prompt width height name prompt),
    ),
    tt,
  )
  frames-IsWhole library (send_mouse_event x y which_button button_down relative) is java prompt =
      ((to_unsigned-bound 8 which_button (omega arith), refl, tt), tt)
  frames-IsWhole library (send_touch_event action id x y) is java prompt =
      if-elim (All (IsWhole abi)) (is_minus_one action) _ _ (λ _. tt)
        (λ _. (
          (
            (
              to_unsigned-bound 16 action (omega arith),
              to_unsigned-bound 16 id (omega arith),
              to_unsigned-bound 16 x (omega arith),
              to_unsigned-bound 16 y (omega arith),
            ),
            refl,
            tt,
          ),
          tt,
        ))
  frames-IsWhole library (send_stylus_event c) is java prompt = (
    (
      (
        to_unsigned-bound 16 c.pressure (omega arith),
        to_signed_idem 8 c.tilt_x (omega arith),
        to_signed_idem 8 c.tilt_y (omega arith),
        to_signed_idem 16 c.orientation (omega arith),
        to_unsigned-bound 8 c.buttons (omega arith),
      ),
      refl,
      tt,
    ),
    tt,
  )
  frames-IsWhole library (request_stylus_enabled enabled) is java prompt = ((tt, refl, tt), tt)
  frames-IsWhole library (send_key_event scan_code key_code key_down) is java prompt =
      let code = if is_zero scan_code then t.linux_keycode key_code else scan_code in
      ((to_unsigned-bound 16 (plus_eight code) (omega arith), refl, tt), tt)
  frames-IsWhole library (send_text_event none) is java prompt = tt
  frames-IsWhole library (send_text_event (some text)) is java prompt =
      text_frames-IsWhole (text_characters t (length text) text)
        (text_characters-small library (length text) text)
  frames-IsWhole library (send_gamepad_event button pressed x y axis) is java prompt =
      let max = max_value axis in
      (
        (
          (
            to_unsigned-bound 8 button (omega arith),
            to_signed_idem 16 (abi.truncated x max) (omega arith),
            to_signed_idem 16 (abi.truncated y max) (omega arith),
            to_unsigned-bound 8 axis (omega arith),
          ),
          refl,
          tt,
        ),
        tt,
      )
