-- ===== src/Flip/Shared.antt =====
-- What an accepted flip guarantees, and which pixmaps it takes.
use termux_x11_extra.Base.{
  ℕ, ◌+◌, ◌≡◌, refl, ap, ◌⊎◌, Bool, true, false, not, ◌&&◌, ◌||◌, [], Option, none, some, arith,
  if-elim, ◌≢◌,
}
use termux_x11_extra.Base.Int.{is_zero}
use termux_x11_extra.Buffer.{BufferType, LorieBuffer, Resource, Log, Locking, lock}
use termux_x11_extra.Buffer.Create.{System}
use termux_x11_extra.Buffer.Convert.{convert, is_regular}
use termux_x11_extra.Buffer.Balance.{acquired, released, owned, owned_if_made}
use termux_x11_extra.Buffer.Ownership.{convert-count}
use termux_x11_extra.Buffer.Sharing.{lock-keeps}
use termux_x11_extra.Flip.{
  Pixmap, Screen, Flipped, refused, is_fd, is_hardware, register, lock_converted, target_type,
  target_format, flip_buffer, is_null, is_other_size, flip_pixmap, present_flip,
}

abbrev pub is_shareable : BufferType → Bool
is_shareable t = is_fd t || is_hardware t

-- What a pixmap with the buffer needs: no memory of its own, the root's width as its width and as its
-- height, and no imported descriptor unless flips are forced.
abbrev pub IsFit : Screen → Pixmap → LorieBuffer → Type 0
IsFit s p b =
    (p.mem ≡ none)
    × (p.width ≡ s.width)
    × (p.height ≡ s.width)
    × ((is_fd b.desc.type && (p.imported && not s.force_flip)) ≡ false)

-- There is no buffer, or the pixmap is not fit, or its buffer, converted, is none that both processes
-- can map.
abbrev pub IsRefusable : Screen → Pixmap → Flipped → Type 0
IsRefusable s p f =
    (p.buffer ≡ none)
    ⊎ (((b : LorieBuffer) × (p.buffer ≡ some b) × ¬ IsFit s p b)
        ⊎ ((b : LorieBuffer) × (f.pixmap.buffer ≡ some b) × (is_shareable b.desc.type ≡ false)))

-- Refused for one of the reasons, with nothing announced; or fit and accepted, with the pixmap's buffer
-- announced, of a type that both processes can map.
abbrev pub IsOutcome : Screen → Pixmap → Flipped → Type 0
IsOutcome s p f =
    ((f.accepted ≡ false) × (f.registered ≡ none) × IsRefusable s p f)
    ⊎ ((f.accepted ≡ true)
        × ((b : LorieBuffer) × (p.buffer ≡ some b) × IsFit s p b)
        × ((b : LorieBuffer) × (f.registered ≡ some b)
            × (f.pixmap.buffer ≡ some b)
            × (is_shareable b.desc.type ≡ true)))

flip_pixmap-square :
    (sys : System) (l : Locking) (s : Screen) (p : Pixmap) (o : Option LorieBuffer)
    → (p.width ≢ s.width) ⊎ (p.height ≢ s.width)
    → flip_pixmap sys l s p o ≡ refused p []
flip_pixmap-square sys l s p none other = refl
flip_pixmap-square sys l s p (some b) other = ground arith

-- A flip is refused for every pixmap that is not a square with the screen's width as its side, whatever
-- the screen's height is.
pub present_flip-square :
    (sys : System) (l : Locking) (s : Screen) (p : Pixmap)
    → (p.width ≢ s.width) ⊎ (p.height ≢ s.width)
    → present_flip sys l s p ≡ refused p []
unfolding present_flip
present_flip-square sys l s p other = flip_pixmap-square sys l s p p.buffer other

abbrev pub IsBalanced : Resource → Option LorieBuffer → Flipped → Type 0
IsBalanced r o f =
    acquired r f.log + owned_if_made r o ≡ released r f.log + owned_if_made r f.pixmap.buffer

register-IsBalanced :
    (r : Resource) (o : Option LorieBuffer) (p : Pixmap) (b : LorieBuffer) (log : Log)
    → acquired r log + owned_if_made r o ≡ released r log + owned_if_made r p.buffer
    → IsBalanced r o (register p b log)
register-IsBalanced r o p b log h =
    if-elim (IsBalanced r o) (not (is_fd b.desc.type) && not (is_hardware b.desc.type)) _ _ (λ _. h)
      (λ _. h)

lock_converted-IsBalanced :
    (r : Resource) (o : Option LorieBuffer) (l : Locking) (p : Pixmap) (m : LorieBuffer × Log)
    → acquired r m.1 + owned_if_made r o ≡ released r m.1 + owned r m.0
    → IsBalanced r o (lock_converted l p m)
lock_converted-IsBalanced r o l p (b, log) h =
    if-elim (IsBalanced r o) (is_regular b.desc.type) _ _
      (λ _. register-IsBalanced r o (record p { buffer = some b }) b log h)
      (λ _.
        register-IsBalanced r o (record p { buffer = some (lock l b).0; locked = (lock l b).2 })
          (lock l b).0 log (omega (arith, h, (lock-keeps r l b).1)))

flip_buffer-IsBalanced :
    (r : Resource) (sys : System) (l : Locking) (s : Screen) (p : Pixmap) (b : LorieBuffer)
    → ((size : ℕ) → is_zero (sys.shared_memory size) ≡ false)
    → p.buffer ≡ some b
    → IsBalanced r (some b) (flip_buffer sys l s p b)
flip_buffer-IsBalanced r sys l s p b live is =
    let same : owned_if_made r p.buffer ≡ owned r b = ap (owned_if_made r) is in
    if-elim (IsBalanced r (some b)) (is_fd b.desc.type && (p.imported && not s.force_flip)) _ _
      (λ _. omega (arith, same))
      (λ _.
        if-elim (IsBalanced r (some b)) (is_regular b.desc.type) _ _
          (λ _.
            lock_converted-IsBalanced r (some b) l p
              (convert sys b (target_type s) (target_format s))
              (convert-count r sys b (target_type s) (target_format s) live))
          (λ _. register-IsBalanced r (some b) p b [] (omega (arith, same))))

flip_pixmap-IsBalanced :
    (r : Resource) (sys : System) (l : Locking) (s : Screen) (p : Pixmap) (o : Option LorieBuffer)
    → ((size : ℕ) → is_zero (sys.shared_memory size) ≡ false)
    → p.buffer ≡ o
    → IsBalanced r o (flip_pixmap sys l s p o)
flip_pixmap-IsBalanced r sys l s p none live is = omega (arith, ap (owned_if_made r) is)
flip_pixmap-IsBalanced r sys l s p (some b) live is =
    let same : owned_if_made r p.buffer ≡ owned r b = ap (owned_if_made r) is in
    if-elim (IsBalanced r (some b)) (not (is_null p.mem) || is_other_size s p) _ _
      (λ _. omega (arith, same)) (λ _. flip_buffer-IsBalanced r sys l s p b live is)

-- loriePresentFlip, where no descriptor of a new region is 0, neither loses nor doubles what the
-- pixmap's buffer holds, accepted or refused.
pub present_flip-IsBalanced :
    (r : Resource) (sys : System) (l : Locking) (s : Screen) (p : Pixmap)
    → ((size : ℕ) → is_zero (sys.shared_memory size) ≡ false)
    → IsBalanced r p.buffer (present_flip sys l s p)
unfolding present_flip
present_flip-IsBalanced r sys l s p live = flip_pixmap-IsBalanced r sys l s p p.buffer live refl
