-- ===== src/Sync/Timed.antt =====
-- interprocess/sync: the timed locks of both mutexes.
use shm_next.Base.{ℕ, suc, ◌+◌, ◌*◌, ◌≤◌, ◌≡◌, refl, Bool, false, not, Option, some, arith}
use shm_next.Sync.{Clock, Outcome, returns, system_error, owner_dead_error, millisecond}
use shm_next.Sync.Deadline.{IsClock, Ends, poll-Ends}
use shm_next.Sync.Mutex
use shm_next.Sync.Mutex.{
  Pthread, MutexTryLockStatus, is_busy, decide, abandoned, abandon_owner_dead_lock,
  try_lock_with_recovery_status, try_lock_until_with_recovery_status,
}
use shm_next.Sync.SharedMutex
use shm_next.Sync.SharedMutex.{Rwlock, poll_until}

module _ {W : Type 0} (clock : Clock W) (time : W → ℕ) (is : IsClock clock time) where
  -- The timed exclusive lock of the shared mutex, with a clock that never runs back and fuel for an
  -- attempt per millisecond and one more, has a result, and fails only after the deadline.
  pub try_lock_until-Ends :
      (p : Rwlock W)
      → ((w : W) → time w ≤ time (p.trywrlock w).1)
      → (n deadline : ℕ) (w : W) → deadline ≤ time w + n * millisecond
      → Ends not deadline time (SharedMutex.try_lock_until p (suc n) clock deadline w)
  unfolding SharedMutex.try_lock_until poll_until SharedMutex.try_lock
  try_lock_until-Ends p forward n deadline w enough =
      poll-Ends clock time is (SharedMutex.try_lock p) not (λ v. ground (arith, forward v)) n
        deadline w enough

  -- The timed shared lock of the shared mutex, with a clock that never runs back and fuel for an
  -- attempt per millisecond and one more, has a result, and fails only after the deadline.
  pub try_lock_shared_until-Ends :
      (p : Rwlock W)
      → ((w : W) → time w ≤ time (p.tryrdlock w).1)
      → (n deadline : ℕ) (w : W) → deadline ≤ time w + n * millisecond
      → Ends not deadline time (SharedMutex.try_lock_shared_until p (suc n) clock deadline w)
  unfolding SharedMutex.try_lock_shared_until poll_until SharedMutex.try_lock_shared
  try_lock_shared_until-Ends p forward n deadline w enough =
      poll-Ends clock time is (SharedMutex.try_lock_shared p) not (λ v. ground (arith, forward v)) n
        deadline w enough

  recovery-Ends :
      (p : Pthread W)
      → ((w : W) → time w ≤ time (p.mutex_trylock w).1)
      → (n deadline : ℕ) (w : W) → deadline ≤ time w + n * millisecond
      → Ends is_busy deadline time (try_lock_until_with_recovery_status p (suc n) clock deadline w)
  unfolding try_lock_until_with_recovery_status try_lock_with_recovery_status
  recovery-Ends p forward n deadline w enough =
      poll-Ends clock time is (try_lock_with_recovery_status p) is_busy
        (λ v. ground (arith, forward v)) n deadline w enough

-- `try_lock_until` gives up only where the last status was busy.
decide-false :
    {W : Type 0} (p : Pthread W) (o : Outcome MutexTryLockStatus) (w : W)
    → (decide p o w).0 ≡ returns false
    → (o ≡ returns MutexTryLockStatus.busy) × ((decide p o w).1 ≡ w)
unfolding decide abandoned abandon_owner_dead_lock
decide-false p (returns MutexTryLockStatus.acquired) w e = ground arith
decide-false p (returns MutexTryLockStatus.busy) w e = (refl, refl)
decide-false p (returns MutexTryLockStatus.owner_dead) w e = ground arith
decide-false p (system_error c) w e = ground arith
decide-false p owner_dead_error w e = ground arith

-- A timed lock of the mutex that has a result, and returns false only after the deadline.
pub record Timed {W : Type 0} (deadline : ℕ) (time : W → ℕ) (o : Option (Outcome Bool × W))
    : Type 0 where
  pub outcome : Outcome Bool
  pub after : W
  pub result : o ≡ some (outcome, after)
  pub late : outcome ≡ returns false → deadline ≤ time after

module _ {W : Type 0} (clock : Clock W) (time : W → ℕ) (is : IsClock clock time) where
  -- The timed lock of the mutex, with a clock that never runs back and fuel for an attempt per
  -- millisecond and one more, has a result, and returns false only after the deadline.
  pub try_lock_until-Timed :
      (p : Pthread W)
      → ((w : W) → time w ≤ time (p.mutex_trylock w).1)
      → (n deadline : ℕ) (w : W) → deadline ≤ time w + n * millisecond
      → Timed deadline time (Mutex.try_lock_until p (suc n) clock deadline w)
  unfolding Mutex.try_lock_until
  try_lock_until-Timed p forward n deadline w enough =
      let e = recovery-Ends clock time is p forward n deadline w enough in
      record {
        outcome = (decide p e.outcome e.after).0;
        after = (decide p e.outcome e.after).1;
        result = rw (e.result, Mutex.try_lock_until) refl;
        late =
            λ f. let (b, same) = decide-false p e.outcome e.after f in rw same (e.late (rw b refl));
      }
