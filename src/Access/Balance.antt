-- ===== src/Access/Balance.antt =====
-- loriePrepareAccess and lorieFinishAccess of app/src/main/cpp/lorie/InitOutput.c: the end of an access
-- undoes its beginning.
use termux_x11_extra.Base.{
  ℕ, ◌+◌, ◌-◌, ◌≡◌, ◌⊎◌, inl, inr, refl, ap, sym, ◌∙◌, Bool, true, false, Option, none, some, arith,
  if-elim, if◌then◌else◌,
}
use termux_x11_extra.Base.Int.{ℤ}
use termux_x11_extra.Buffer.{LorieBuffer, Result, Locking, lock, unlock}
use termux_x11_extra.Buffer.Locks.{lock-unlock}
use termux_x11_extra.Access.{
  Accessed, Prepared, is_success, lock_buffer, locked_now, pointer_of, hold, prepare_access,
  finish_access,
}

-- A pixmap with a buffer that nobody accesses.
abbrev pub idle : LorieBuffer → Option ℕ → Bool → Option ℕ → ℕ → Accessed
idle b mem was_locked pointer held = record {
  buffer = some b;
  locked = none;
  mem = mem;
  was_locked = was_locked;
  pointer = pointer;
  held = held;
}

abbrev pub unlocked : LorieBuffer → LorieBuffer
unlocked b = record b { locked_data = none; locked = false }

-- The pixmap has no locked address any more, and its lock is held as often as before.
abbrev pub IsIdleAgain : LorieBuffer → Option ℕ → ℕ → Accessed → Type 0
IsIdleAgain b mem held p =
    ((p.buffer ≡ some b) ⊎ (p.buffer ≡ some (unlocked b)))
    × (p.locked ≡ none)
    × (p.mem ≡ mem)
    × (p.held ≡ held)

locked_now-done :
    (p : Accessed) (result : Result)
    → (locked_now (p, result)).done ≡ true
    → (locked_now (p, result)).pixmap
      ≡ record p { was_locked = false; pointer = pointer_of p.locked p.mem }
locked_now-done p result =
    if-elim
      (λ (r : Prepared).
        r.done ≡ true
        → r.pixmap ≡ record p { was_locked = false; pointer = pointer_of p.locked p.mem })
      (is_success result) _ _ (λ _ _. refl) (λ _ e. cc)

held-back :
    (is_screen : Bool) (held : ℕ)
    → (if is_screen
        then (if is_screen then held + 1 else held) - 1
        else (if is_screen then held + 1 else held))
      ≡ held
held-back true held = omega arith
held-back false held = refl

unlock-lock :
    (l : Locking) (ret : ℤ) (b : LorieBuffer)
    → b.locked ≡ false
    → (unlock ret (lock l b).0).0 ≡ unlocked b
unlock-lock l ret b free = (lock-unlock l l ret b free).1

-- The address that the lock gives, where the pixmap has no memory of its own.
abbrev pub given_address : Locking → LorieBuffer → Option ℕ → Option ℕ
given_address l b none = (lock l b).2
given_address l b (some address) = none

-- A pixmap with a buffer that is not locked, whether or not it has memory of its own: where
-- loriePrepareAccess succeeds, the pixmap then has the pointer that the lock gave, or that of its own
-- memory. lorieFinishAccess leaves the buffer unlocked and otherwise as it was, `priv->locked` without an
-- address, the private part's memory as it was, and the shared lock held as often as before; the
-- pixmap's pointer it leaves as it is, also where the lock that gave it is over.
pub finish_access-prepare_access :
    (l : Locking) (ret : ℤ) (is_screen : Bool) (b : LorieBuffer) (mem : Option ℕ)
    (was_locked : Bool) (pointer : Option ℕ) (held : ℕ)
    → b.locked ≡ false
    → let r = prepare_access l is_screen (idle b mem was_locked pointer held) in
      let after = finish_access ret is_screen r.pixmap in
      r.done ≡ true
      → IsIdleAgain b mem held after
        × (r.pixmap.pointer ≡ pointer_of (given_address l b mem) mem)
        × (after.pointer ≡ r.pixmap.pointer)
unfolding prepare_access finish_access
finish_access-prepare_access l ret is_screen b none was_locked pointer held free done =
    let p = hold is_screen (idle b none was_locked pointer held) in
    let r = lock_buffer l p (some b) in
    let is = locked_now-done r.0 r.1 done in
    let finished : finish_access ret is_screen (locked_now r).pixmap ≡ _ =
      ap (finish_access ret is_screen) is in
    (
      (
        inr (ap (λ (q : Accessed). q.buffer) finished ∙ ap some (unlock-lock l ret b free)),
        ap (λ (q : Accessed). q.locked) finished,
        ap (λ (q : Accessed). q.mem) finished,
        ap (λ (q : Accessed). q.held) finished ∙ held-back is_screen held,
      ),
      ap (λ (q : Accessed). q.pointer) is,
      ap (λ (q : Accessed). q.pointer) finished ∙ sym (ap (λ (q : Accessed). q.pointer) is),
    )
finish_access-prepare_access l ret is_screen b (some address) was_locked pointer held free done =
    ((inl refl, refl, refl, held-back is_screen held), refl, refl)
