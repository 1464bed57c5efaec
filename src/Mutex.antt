-- ===== src/Mutex.antt =====
-- The mutex that the server and the activity share, lorie_mutex_lock and lorie_mutex_unlock of
-- app/src/main/cpp/lorie/lorie.h. The mutex of the C library is a value of the type P, and `Pthread` has its
-- functions.
pub mod Recovery
mod Examples
use termux_x11_extra.Base.{ℕ, zero, suc, ◌+◌, Bool, ◌||◌, Option, none, some, ◌==◌, if◌then◌else◌}

-- What pthread_mutex_timedlock returns: ETIMEDOUT, or 0 or another error.
pub data Answer : Type 0 where
  timed_out : Answer
  answered : ℕ → Answer

-- pthread_mutex_timedlock by a process at its call `i`, pthread_mutex_unlock, and a mutex after
-- pthread_mutex_init.
pub record Pthread (P : Type 0) : Type 0 where
  pub timed_lock : ℕ → ℕ → P → P × Answer
  pub unlock : ℕ → P → P
  pub fresh : P

-- The mutex, and the field lockingPid.
pub record SharedMutex (P : Type 0) : Type 0 where
  pub mutex : P
  pub locking_pid : ℕ

module _ {P : Type 0} (t : Pthread P) (pid : ℕ) (alive : ℕ → Bool) where
  -- The mutex for the next round, after a call `i` that has timed out. `alive i` is what
  -- lorieConnectionAlive returns then.
  abbrev pub after_timeout : ℕ → SharedMutex P → P → SharedMutex P
  after_timeout i m p =
      if m.locking_pid == pid || alive i
      then record m { mutex = p }
      else record m { mutex = t.fresh }

  -- The body of the loop after the call `i`; `again` is the next round.
  abbrev pub after_call :
      (SharedMutex P → Option (SharedMutex P))
      → ℕ
      → SharedMutex P
      → P × Answer
      → Option (SharedMutex P)
  after_call again i m (p, timed_out) = again (after_timeout i m p)
  after_call again i m (p, answered n) = some (record { mutex = p; locking_pid = pid })

  -- lorie_mutex_lock by the process `pid` from the call `i` on, for `fuel` rounds: none where it still
  -- waits.
  unfoldable pub lock : ℕ → ℕ → SharedMutex P → Option (SharedMutex P)
  lock zero i m = none
  lock (suc fuel) i m = after_call (lock fuel (i + 1)) i m (t.timed_lock pid i m.mutex)

  -- lorie_mutex_unlock
  abbrev pub unlock : SharedMutex P → SharedMutex P
  unlock m = record { mutex = t.unlock pid m.mutex; locking_pid = 0 }
