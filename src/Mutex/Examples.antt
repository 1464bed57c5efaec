-- ===== src/Mutex/Examples.antt =====
-- Runs of lorie_mutex_lock of app/src/main/cpp/lorie/lorie.h.
use termux_x11_extra.Base.{ℕ, ◌≡◌, refl, true, Bool, none, some, ◌==◌, if◌then◌else◌}
use termux_x11_extra.Mutex.{timed_out, answered, Pthread, SharedMutex, lock}
use termux_x11_extra.Mutex.Recovery.{IsTaken, lock-IsTaken}

-- A mutex that knows its holder, 0 for none: it is taken where it is free or the caller's.
abbrev held_by : Pthread ℕ
held_by = record {
  timed_lock = λ pid i holder.
      if holder == 0
      then (pid, answered 0)
      else if holder == pid
      then (pid, answered 0)
      else (holder, timed_out);
  unlock = λ pid holder. 0;
  fresh = 0;
}

-- The process 7 holds the mutex and dies; the connection is found dead at the second call.
abbrev dies : ℕ → Bool
dies i = i == 0

abbrev held : SharedMutex ℕ
held = record { mutex = 7; locking_pid = 7 }

recovered : lock held_by 8 dies 3 0 held ≡ some (record { mutex = 8; locking_pid = 8 })
unfolding lock
recovered = refl

-- As long as the connection lives, the mutex stays with its holder.
still_waiting : lock held_by 8 (λ i. true) 9 0 held ≡ none
unfolding lock
still_waiting = refl

lock-IsTaken_example : IsTaken held_by 8 dies (lock held_by 8 dies 4 0 held)
lock-IsTaken_example =
    lock-IsTaken held_by 8 dies 2 0 held (λ i. refl) (refl, λ kept. (refl, λ kept'. cc))
