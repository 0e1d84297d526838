-- ===== src/Tests/Locks.antt =====
-- The theorems on the mutexes, for a system that counts time and has one lock.
use shm_next.Base.{ℕ, ◌+◌, refl, Bool, true, ◌==◌, arith, if◌then◌else◌}
use shm_next.Sync.{Clock}
use shm_next.Sync.Deadline.{IsClock}
use shm_next.Sync.Timed.{Timed, try_lock_until-Timed}
use shm_next.Sync.Held.{IsPthread, Fair, lock-Fair}
use shm_next.Sync.Mutex
use shm_next.Sync.Mutex.{Pthread}
use shm_next.Sync.SharedMutex.{Rwlock}

-- the time, and who holds the lock: 0 nobody, 1 the caller, 2 another, 3 one that died
abbrev System : Type 0
System = ℕ × ℕ

abbrev clock : Clock System
clock = record { now = λ w. (w.0 + 5, (w.0 + 7, w.1)); sleep_for = λ d w. (w.0 + d + 1, w.1) }

abbrev time : System → ℕ
time w = w.0

clock-IsClock : IsClock clock time
clock-IsClock = record {
  reads = λ w. omega arith;
  passes = λ w. omega arith;
  sleeps = λ d w. omega arith;
}

abbrev take_it : System → ℕ × System
take_it w = if w.1 == 0 then (0, (w.0, 1)) else if w.1 == 3 then (130, (w.0, 1)) else (16, w)

abbrev give_it : System → ℕ × System
give_it w = if w.1 == 1 then (0, (w.0, 0)) else (1, w)

abbrev mutex : Pthread System
mutex = record {
  robust = true;
  owner_dead = 130;
  not_recoverable = 131;
  busy = 16;
  mutex_lock = take_it;
  mutex_trylock = take_it;
  mutex_unlock = give_it;
  mutex_consistent = λ w. (0, w);
}

abbrev rwlock : Rwlock System
rwlock = record {
  busy = 16;
  again = 11;
  wrlock = take_it;
  trywrlock = take_it;
  rdlock = take_it;
  tryrdlock = take_it;
  unlock = give_it;
}

abbrev held : System → Bool
held w = w.1 == 1

mutex-IsPthread : IsPthread mutex held
mutex-IsPthread = record {
  locked = λ w e. ground arith;
  refused = λ w ne out. ground arith;
  tried = λ w e. ground arith;
  not_tried = λ w ne out. ground arith;
  unlocked = λ w e. ground arith;
}

try_lock_until-Timed_example :
    Timed 3000000 time (Mutex.try_lock_until mutex 4 clock 3000000 (9, 2))
try_lock_until-Timed_example =
    try_lock_until-Timed clock time clock-IsClock mutex (λ w. ground arith) 3 3000000 (9, 2)
      (omega arith)

lock-Fair_example : Fair held (λ _. true) (Mutex.lock mutex (9, 3))
lock-Fair_example = lock-Fair mutex held mutex-IsPthread (9, 3) refl
