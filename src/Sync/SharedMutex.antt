-- ===== src/Sync/SharedMutex.antt =====
-- interprocess/sync/posix_shared_mutex.h: one writer or several readers.
use shm_next.Base.{ℕ, ◌==◌, Bool, true, false, not, ◌||◌, Option, if◌then◌else◌}
use shm_next.Sync.{Clock, Outcome, returns, system_error, Call, checked, poll}

pub record Rwlock (W : Type 0) : Type 0 where
  pub busy : ℕ
  pub again : ℕ
  pub wrlock : W → ℕ × W
  pub trywrlock : W → ℕ × W
  pub rdlock : W → ℕ × W
  pub tryrdlock : W → ℕ × W
  pub unlock : W → ℕ × W

module _ {W : Type 0} (p : Rwlock W) where
  abbrev pub is_busy_result : ℕ → Bool
  is_busy_result res = (res == p.busy) || (res == p.again)

  abbrev pub attempt : (W → ℕ × W) → Call W Bool
  attempt call w =
      let (res, w') = call w in
      if res == 0
      then (returns true, w')
      else if is_busy_result res
      then (returns false, w')
      else (system_error res, w')

  unfoldable pub lock : Call W (Unit {0})
  lock = checked p.wrlock

  unfoldable pub try_lock : Call W Bool
  try_lock w = attempt p.trywrlock w

  unfoldable pub unlock : Call W (Unit {0})
  unlock = checked p.unlock

  unfoldable pub lock_shared : Call W (Unit {0})
  lock_shared = checked p.rdlock

  unfoldable pub try_lock_shared : Call W Bool
  try_lock_shared w = attempt p.tryrdlock w

  unfoldable pub unlock_shared : Call W (Unit {0})
  unlock_shared w = unlock w

  unfoldable pub poll_until :
      ℕ → Clock W → (deadline : ℕ) → Call W Bool → W → Option (Outcome Bool × W)
  poll_until fuel clock deadline try w = poll fuel clock try not deadline w

  unfoldable pub try_lock_until : ℕ → Clock W → (deadline : ℕ) → W → Option (Outcome Bool × W)
  try_lock_until fuel clock deadline w = poll_until fuel clock deadline try_lock w

  unfoldable pub try_lock_shared_until :
      ℕ → Clock W → (deadline : ℕ) → W → Option (Outcome Bool × W)
  try_lock_shared_until fuel clock deadline w = poll_until fuel clock deadline try_lock_shared w
