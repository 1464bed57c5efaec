-- ===== src/Screen/Shown.antt =====
-- The root window and the activity, app/src/main/cpp/lorie/InitOutput.c: the root window has the pixmap of
-- the screen, whose buffer is locked and, with a connection, registered.
use mathlib.Core.Path.{subst}
use termux_x11_extra.Base.{
  ℕ, ◌≡◌, refl, sym, ap, ◌∙◌, true, false, ◌&&◌, List, Option, none, some, ◌==◌, ==_refl, arith,
  if-elim, if-true,
}
use termux_x11_extra.Base.Int.{pos}
use termux_x11_extra.Buffer.{LorieBuffer, Locking, lock, Log}
use termux_x11_extra.Buffer.Create.{allocate_own}
use termux_x11_extra.Vblank.{Notice}
use termux_x11_extra.Access.{Accessed, is_null, lock_buffer}
use termux_x11_extra.Channel.Link.{Link, Message, has_id, is_connected, register_buffer}
use termux_x11_extra.Screen.{Settings, Display}
use termux_x11_extra.Screen.Pixmaps.{
  Making, NewPixmap, blank, buffer_type, buffer_format, create_pixmap, put, content_of, set_from,
  buffer_of, lock_given, set_root_pixmap, register_some, register_screen, is_there,
}
use termux_x11_extra.Screen.Resize.{
  Resizing, Resized, crash, resized, is_same_pixmap, visit_root, destroyed_content, replace_old,
  with_new,
}

abbrev pub IsLocked : Option LorieBuffer → Type 0
IsLocked none = ⊥
IsLocked (some b) = b.locked ≡ true

-- With a connection the buffer is registered.
abbrev pub IsRegistered : Link → Option LorieBuffer → Type 0
IsRegistered l none = Unit
IsRegistered l (some b) = is_connected l.conn ≡ true → has_id b.desc.id l.registered ≡ true

abbrev pub screen_buffer : Display → Option LorieBuffer
screen_buffer d = buffer_of (content_of d.screen_pixmap d.pixmaps)

abbrev pub IsShown : Display → Type 0
IsShown d =
    (d.root_pixmap ≡ d.screen_pixmap)
    × IsLocked (screen_buffer d)
    × IsRegistered d.link (screen_buffer d)

register-has :
    (l : Link) (id : ℕ)
    → is_connected l.conn ≡ true
    → has_id id (register_buffer l id).0.registered ≡ true
unfolding register_buffer
register-has l id connected = ground (arith, ==_refl id)

register-conn : (l : Link) (id : ℕ) → (register_buffer l id).0.conn ≡ l.conn
unfolding register_buffer
register-conn l id = ground arith

register_some-IsRegistered :
    (l : Link) (o : Option LorieBuffer) → IsRegistered (register_some l o).0 o
register_some-IsRegistered l none = tt
register_some-IsRegistered l (some b) = λ connected.
    register-has l b.desc.id (sym (ap is_connected (register-conn l b.desc.id)) ∙ connected)

pub lock-locked : (l : Locking) (b : LorieBuffer) → (lock l b).0.locked ≡ true
unfolding lock
lock-locked l b = ground arith

lock_buffer-IsLocked :
    (l : Locking) (p : Accessed) (o : Option LorieBuffer)
    → IsLocked o
    → IsLocked (lock_buffer l p o).0.buffer
lock_buffer-IsLocked l p none locked = absurd locked
lock_buffer-IsLocked l p (some b) locked = lock-locked l b

lock_given-IsLocked :
    (l : Locking) (p : Accessed) → IsLocked p.buffer → IsLocked (buffer_of (lock_given l (some p)))
lock_given-IsLocked l p locked =
    if-elim (λ (o : Option Accessed). IsLocked (buffer_of o))
      (is_there p.buffer && is_null p.locked) _ _ (λ _. lock_buffer-IsLocked l p p.buffer locked)
      (λ _. locked)

-- A screen that is registered after its content was made.
pub register_screen-IsShown :
    (d : Display)
    → d.root_pixmap ≡ d.screen_pixmap
    → IsLocked (screen_buffer d)
    → IsShown (register_screen d).0
register_screen-IsShown d same locked =
    (same, locked, register_some-IsRegistered d.link (screen_buffer d))

-- The settings are those, and the root window and the screen have the pixmap with the number and the
-- private part.
abbrev HasRoot : Settings → ℕ → Option Accessed → Display → Type 0
HasRoot s fresh o d =
    (d.settings ≡ s)
    × (d.root_pixmap ≡ some fresh)
    × (d.screen_pixmap ≡ some fresh)
    × (d.pixmaps fresh ≡ o)

-- The root window is moved to the new pixmap at the number `fresh`.
visit_root-content :
    (z : Resizing) (old fresh : ℕ) (p : Accessed) (d : Display)
    → d.root_pixmap ≡ some old
    → d.screen_pixmap ≡ some fresh
    → (fresh == old) ≡ false
    → d.pixmaps fresh ≡ some p
    → HasRoot d.settings fresh (lock_given z.making.locking (some p)) (visit_root z old d)
unfolding visit_root set_root_pixmap
visit_root-content z old fresh p d root screen other content =
    let l = z.making.locking in
    let moved : visit_root z old d ≡ set_from l z.unlock_ret (some old) (some fresh) d =
      if-true (is_same_pixmap d.root_pixmap old) _ _
        (ap (λ o. is_same_pixmap o old) root ∙ ==_refl old)
      ∙ ap (λ o. set_from l z.unlock_ret o d.screen_pixmap d) root
      ∙ ap (λ o. set_from l z.unlock_ret (some old) o d) screen in
    subst (HasRoot d.settings fresh (lock_given l (some p))) (sym moved)
      (refl, refl, screen, rw (==_refl fresh, other, content) refl)

destroyed_content-HasRoot :
    (z : Resizing) (s : Settings) (old fresh : ℕ) (d : Display) (gone o : Option Accessed)
    → (fresh == old) ≡ false
    → HasRoot s fresh o d
    → HasRoot s fresh o (destroyed_content z old d gone).0
destroyed_content-HasRoot z s old fresh d none o other has = has
destroyed_content-HasRoot z s old fresh d (some p) o other (same, root, screen, content) =
    if-elim (λ (r : Display × List Message × Log). HasRoot s fresh o r.0) z.is_last _ _
      (λ _. (same, root, screen, rw other content)) (λ _. (same, root, screen, content))

replace_old-HasRoot :
    (z : Resizing) (old fresh : ℕ) (p : Accessed) (d : Display) (o : Option ℕ)
    → o ≡ some old
    → d.root_pixmap ≡ some old
    → d.screen_pixmap ≡ some fresh
    → (fresh == old) ≡ false
    → d.pixmaps fresh ≡ some p
    → HasRoot d.settings fresh (lock_given z.making.locking (some p)) (replace_old z o d).0
unfolding replace_old
replace_old-HasRoot z old fresh p d o is root screen other content =
    let d1 = visit_root z old d in
    subst
      (λ x. HasRoot d.settings fresh (lock_given z.making.locking (some p)) (replace_old z x d).0)
      (sym is)
      (destroyed_content-HasRoot z d.settings old fresh d1 (d1.pixmaps old)
        (lock_given z.making.locking (some p)) other
        (visit_root-content z old fresh p d root screen other content))

pub HasRoot-IsShown :
    (l : Locking) (s : Settings) (fresh : ℕ) (p : Accessed) (d : Display)
    → IsLocked p.buffer
    → HasRoot s fresh (lock_given l (some p)) d
    → ((register_screen d).0.settings ≡ s) × IsShown (register_screen d).0
HasRoot-IsShown l s fresh p d locked (same, root, screen, content) = (
  same,
  register_screen-IsShown d (root ∙ sym screen) (
      subst (λ o. IsLocked (buffer_of o)) (sym (ap (λ o. content_of o d.pixmaps) screen ∙ content))
        (lock_given-IsLocked l p locked)),
)

-- The settings have the size, and all else of them is as before; the screen is shown.
abbrev pub IsResized : ℕ → ℕ → Settings → Resized → Type 0
IsResized width height s crash = ⊥
IsResized width height s (resized d notices messages log) =
    (d.settings ≡ record s { width = width; height = height }) × IsShown d

pub with_new-IsResized :
    (z : Resizing) (notices : List Notice) (new : NewPixmap) (d : Display) (old : ℕ) (p : Accessed)
    → d.root_pixmap ≡ some old
    → d.screen_pixmap ≡ some old
    → (z.making.fresh == old) ≡ false
    → IsLocked p.buffer
    → IsResized d.settings.width d.settings.height d.settings (with_new z notices new d (some p))
with_new-IsResized z notices new d old p root screen other locked =
    let fresh = z.making.fresh in
    let d1 : Display = record d {
      pixmaps = put fresh (some p) d.pixmaps;
      screen_pixmap = some fresh;
      counter = new.counter;
    } in
    HasRoot-IsShown z.making.locking d.settings fresh p (replace_old z d.screen_pixmap d1).0 locked
      (replace_old-HasRoot z old fresh p d1 d.screen_pixmap screen root refl other
        (rw (==_refl fresh) refl))

-- A pixmap of a size whose buffer is allocated.
pub create_pixmap-made :
    (k : Making) (s : Settings) (counter width height : ℕ) (b : LorieBuffer)
    → k.has_memory ≡ true
    → (width == 0) ≡ false
    → (height == 0) ≡ false
    → (allocate_own k.system counter
        (pos width)
        (pos height)
        (buffer_format s)
        (buffer_type s true)).made
      ≡ some b
    → (create_pixmap k s counter true width height).made
      ≡ some (lock_buffer k.locking blank (some b)).0
unfolding create_pixmap
create_pixmap-made k s counter width height b memory wide high made =
    rw (memory, wide, high, made) refl
