-- ===== src/Mutex/Recovery.antt =====
-- lorie_mutex_lock of app/src/main/cpp/lorie/lorie.h ends: where the mutex comes free, and where its holder
-- has died.
use termux_x11_extra.Base.{
  ℕ, zero, suc, ◌+◌, ◌≡◌, refl, Bool, true, false, ◌||◌, Option, none, some, ◌==◌, if-elim,
}
use termux_x11_extra.Mutex.{
  Answer, timed_out, answered, Pthread, SharedMutex, after_timeout, after_call, lock,
}

abbrev pub is_timed_out : Answer → Bool
is_timed_out timed_out = true
is_timed_out (answered n) = false

module _ {P : Type 0} (t : Pthread P) (pid : ℕ) (alive : ℕ → Bool) where
  -- Whether the mutex may be made anew after the call `i`.
  abbrev pub keeps_mutex : ℕ → SharedMutex P → Bool
  keeps_mutex i m = m.locking_pid == pid || alive i

  -- From the call `i` on at most `n` calls time out before one does not, or before one after which the
  -- connection is found dead and the field has not the number of the caller.
  abbrev pub EndsWithin : ℕ → ℕ → SharedMutex P → Type 0
  EndsWithin zero i m = is_timed_out (t.timed_lock pid i m.mutex).1 ≡ false
  EndsWithin (suc n) i m =
      (is_timed_out (t.timed_lock pid i m.mutex).1 ≡ true)
      × ((keeps_mutex i m ≡ true
          → EndsWithin n (i + 1) (record m { mutex = (t.timed_lock pid i m.mutex).0 })))

  -- It has the mutex from a call that did not time out, and its own number in the field.
  abbrev pub IsTaken : Option (SharedMutex P) → Type 0
  IsTaken none = ⊥
  IsTaken (some m) = m.locking_pid ≡ pid

  -- A mutex that was just made is not held.
  abbrev pub IsFree : Type 0
  IsFree = (i : ℕ) → is_timed_out (t.timed_lock pid i t.fresh).1 ≡ false

  after_call-answered :
      (again : SharedMutex P → Option (SharedMutex P)) (i : ℕ) (m : SharedMutex P) (r : P × Answer)
      → is_timed_out r.1 ≡ false
      → IsTaken (after_call t pid alive again i m r)
  after_call-answered again i m (p, timed_out) is = cc
  after_call-answered again i m (p, answered n) is = refl

  after_call-timed_out :
      (again : SharedMutex P → Option (SharedMutex P)) (i : ℕ) (m : SharedMutex P) (r : P × Answer)
      → is_timed_out r.1 ≡ true
      → IsTaken (again (after_timeout t pid alive i m r.0))
      → IsTaken (after_call t pid alive again i m r)
  after_call-timed_out again i m (p, timed_out) is taken = taken
  after_call-timed_out again i m (p, answered n) is taken = cc

  -- Where at most `n` calls of pthread_mutex_timedlock time out before one does not, or before the
  -- connection is found dead while the field has another number, and a mutex that was just made is not
  -- held: lorie_mutex_lock ends within n + 2 rounds, with the number of the caller in the field.
  pub lock-IsTaken :
      (n i : ℕ) (m : SharedMutex P)
      → IsFree
      → EndsWithin n i m
      → IsTaken (lock t pid alive (suc (suc n)) i m)
  unfolding lock
  lock-IsTaken zero i m free ends =
      after_call-answered (lock t pid alive 1 (i + 1)) i m (t.timed_lock pid i m.mutex) ends
  lock-IsTaken (suc n) i m free (is, ends) =
      let r = t.timed_lock pid i m.mutex in
      after_call-timed_out (lock t pid alive (suc (suc n)) (i + 1)) i m r is (
        if-elim (λ m'. IsTaken (lock t pid alive (suc (suc n)) (i + 1) m')) (keeps_mutex i m) _ _
          (λ kept. lock-IsTaken n (i + 1) (record m { mutex = r.0 }) free (ends kept))
          (λ dead.
            after_call-answered (lock t pid alive (suc n) (i + 1 + 1)) (i + 1)
              (record m { mutex = t.fresh }) (t.timed_lock pid (i + 1) t.fresh) (free (i + 1))))
