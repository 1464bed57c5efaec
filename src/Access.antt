-- ===== src/Access.antt =====
-- The access of the CPU to a pixmap, and its end: loriePrepareAccess, lorieFinishAccess,
-- lorieModifyPixmapHeader and lorieExaDestroyPixmap of app/src/main/cpp/lorie/InitOutput.c, on top of
-- Buffer and Channel.Link.
pub mod Balance
pub mod Import
mod Examples
use termux_x11_extra.Base.{
  ℕ, zero, suc, ◌+◌, ◌-◌, Bool, true, false, not, ◌&&◌, List, [], ◌∷◌, Option, none, some,
  if◌then◌else◌,
}
use termux_x11_extra.Base.Int.{ℤ}
use termux_x11_extra.Buffer.{
  LorieBuffer, Log, Result, success, enodev, eexist, enoent, status, Locking, lock, unlock, release,
}
use termux_x11_extra.Base.Int.{pos, negsuc}
use termux_x11_extra.Channel.Link.{Link, Message, unregister_buffer}

-- LoriePixmapPriv, with the pixmap's devPrivate.ptr and how often `state->lock` is held by the server.
pub record Accessed : Type 0 where
  pub buffer : Option LorieBuffer
  pub locked : Option ℕ
  pub mem : Option ℕ
  pub was_locked : Bool
  pub pointer : Option ℕ
  pub held : ℕ

-- What loriePrepareAccess returns, and the pixmap after it.
pub record Prepared : Type 0 where
  pub done : Bool
  pub pixmap : Accessed

abbrev pub is_null : Option ℕ → Bool
is_null none = true
is_null (some a) = false

-- `!err`
abbrev pub is_success : Result → Bool
is_success success = true
is_success enodev = false
is_success eexist = false
is_success enoent = false
is_success (status (pos zero)) = true
is_success (status (pos (suc n))) = false
is_success (status (negsuc n)) = false

-- LorieBuffer_lock, of a buffer that may be NULL, to `priv->locked`.
abbrev pub lock_buffer : Locking → Accessed → Option LorieBuffer → Accessed × Result
lock_buffer l p none = (p, enodev)
lock_buffer l p (some b) =
    let (b', result, out) = lock l b in (record p { buffer = some b'; locked = out }, result)

-- `priv->locked ?: priv->mem`
abbrev pub pointer_of : Option ℕ → Option ℕ → Option ℕ
pointer_of none mem = mem
pointer_of (some a) mem = some a

-- After the call of LorieBuffer_lock.
abbrev pub locked_now : Accessed × Result → Prepared
locked_now (p, result) =
    if is_success result
    then record {
      done = true;
      pixmap = record p { was_locked = false; pointer = pointer_of p.locked p.mem };
    }
    else record { done = false; pixmap = p }

abbrev pub hold : Bool → Accessed → Accessed
hold is_screen p = record p { held = if is_screen then p.held + 1 else p.held }

-- loriePrepareAccess; the Boolean is its first test.
unfoldable pub prepare_access : Locking → Bool → Accessed → Prepared
unfolding lock
prepare_access l is_screen p =
    let p' = hold is_screen p in
    if is_null p.locked && is_null p.mem then locked_now (lock_buffer l p' p.buffer) else record {
      done = true;
      pixmap = record p' { was_locked = true; pointer = pointer_of p.locked p.mem };
    }

abbrev pub unlock_buffer : ℤ → Option LorieBuffer → Option LorieBuffer
unlock_buffer ret none = none
unlock_buffer ret (some b) = some (unlock ret b).0

-- lorieFinishAccess; the number is what Android's unlock returns.
unfoldable pub finish_access : ℤ → Bool → Accessed → Accessed
unfolding unlock
finish_access ret is_screen p =
    let p' = record p { held = if is_screen then p.held - 1 else p.held } in
    if p.was_locked
    then p'
    else record p' { buffer = unlock_buffer ret p.buffer; locked = none; was_locked = false }

abbrev pub with_mem : Accessed → Option ℕ → Accessed
with_mem p none = p
with_mem p (some address) = record p { mem = some address }

-- lorieModifyPixmapHeader of a pixmap that has its private part.
abbrev pub modify_header : Option ℕ → Accessed → Accessed
modify_header address p = with_mem p address

-- What is left of the pixmap's buffer, what was freed, and what the activity is told.
pub record Destroyed : Type 0 where
  pub buffer : Option LorieBuffer
  pub log : Log
  pub link : Link
  pub messages : List Message

abbrev pub destroy_buffer : Bool → Bool → ℤ → Link → Bool → LorieBuffer → Destroyed
destroy_buffer context display ret link locked b =
    let b' = if locked then (unlock ret b).0 else b in
    let (link', messages) = unregister_buffer link b'.desc.id in
    let (left, log) = release context display b' in
    record { buffer = left; log = log; link = link'; messages = messages }

abbrev pub destroy_content : Bool → Bool → ℤ → Link → Accessed → Option LorieBuffer → Destroyed
destroy_content context display ret link p none = record {
  buffer = none;
  log = [];
  link = link;
  messages = [];
}
destroy_content context display ret link p (some b) =
    destroy_buffer context display ret link (not (is_null p.locked)) b

-- lorieExaDestroyPixmap
unfoldable pub destroy_pixmap : Bool → Bool → ℤ → Link → Accessed → Destroyed
unfolding unlock release unregister_buffer
destroy_pixmap context display ret link p = destroy_content context display ret link p p.buffer
