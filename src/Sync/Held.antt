-- ===== src/Sync/Held.antt =====
-- interprocess/sync/posix_mutex.h: who holds the mutex after a call.
use shm_next.Base.{◌≡◌, ◌≢◌, Bool, true, false, ◌&&◌, ◌==◌, arith}
use shm_next.Sync.{Outcome, returns, owner_dead_error}
use shm_next.Sync.Mutex.{
  Pthread, lock_with_recovery_status, try_lock_with_recovery_status, abandoned,
  abandon_owner_dead_lock, lock, decide, try_lock,
}

-- `held` tells whether the caller holds the mutex: the documented effect of the calls of pthread.
-- A robust mutex whose owner died is held by the caller that learns of it.
pub record IsPthread {W : Type 0} (p : Pthread W) (held : W → Bool) : Type 0 where
  pub locked : (w : W) → (p.mutex_lock w).0 ≡ 0 → held (p.mutex_lock w).1 ≡ true
  pub refused :
      (w : W)
      → (p.mutex_lock w).0 ≢ 0
      → (p.robust && ((p.mutex_lock w).0 == p.owner_dead)) ≡ false
      → held (p.mutex_lock w).1 ≡ held w
  pub tried : (w : W) → (p.mutex_trylock w).0 ≡ 0 → held (p.mutex_trylock w).1 ≡ true
  pub not_tried :
      (w : W)
      → (p.mutex_trylock w).0 ≢ 0
      → (p.robust && ((p.mutex_trylock w).0 == p.owner_dead)) ≡ false
      → held (p.mutex_trylock w).1 ≡ held w
  pub unlocked : (w : W) → (p.mutex_unlock w).0 ≡ 0 → held (p.mutex_unlock w).1 ≡ false

-- A call that returns true, or nothing, leaves the mutex held; a call that returns false or throws that
-- the owner died leaves it to others.
pub record Fair {W A : Type 0} (held : W → Bool) (got : A → Bool) (r : Outcome A × W) : Type 0 where
  pub returned : (x : A) → r.0 ≡ returns x → held r.1 ≡ got x
  pub dead : r.0 ≡ owner_dead_error → held r.1 ≡ false

module _ {W : Type 0} (p : Pthread W) (held : W → Bool) (is : IsPthread p held) where
  -- Where the caller does not hold the mutex, `lock` returns with it held, and where it throws that the
  -- owner died the mutex is not held.
  pub lock-Fair : (w : W) → held w ≡ false → Fair held (λ _. true) (lock p w)
  unfolding lock lock_with_recovery_status abandoned abandon_owner_dead_lock
  lock-Fair w free = record {
    returned = λ x e. ground (arith, is.locked w);
    dead = λ e. ground (arith, is.unlocked (p.mutex_lock w).1);
  }

  -- Where the caller does not hold the mutex, it holds it after `try_lock` returned true, and not after
  -- `try_lock` returned false or threw that the owner died.
  pub try_lock-Fair : (w : W) → held w ≡ false → Fair held (λ b. b) (try_lock p w)
  unfolding try_lock try_lock_with_recovery_status decide abandoned abandon_owner_dead_lock
  try_lock-Fair w free = record {
    returned = λ x e. ground (arith, is.tried w, is.not_tried w);
    dead = λ e. ground (arith, is.unlocked (p.mutex_trylock w).1);
  }
