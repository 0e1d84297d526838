-- ===== src/Sync/Mutex.antt =====
-- interprocess/sync/posix_mutex.h: a mutex that tells when its owner has died.
use shm_next.Base.{ℕ, ◌+◌, ◌==◌, Bool, true, false, ◌&&◌, Option, none, some, if◌then◌else◌}
use shm_next.Sync.{Clock, Outcome, returns, system_error, owner_dead_error, Call, checked, poll}

-- `robust` is `INTERPROCESS_HAS_ROBUST_MUTEX`; the codes are those of errno.h.
pub record Pthread (W : Type 0) : Type 0 where
  pub robust : Bool
  pub owner_dead : ℕ
  pub not_recoverable : ℕ
  pub busy : ℕ
  pub mutex_lock : W → ℕ × W
  pub mutex_trylock : W → ℕ × W
  pub mutex_unlock : W → ℕ × W
  pub mutex_consistent : W → ℕ × W

pub data MutexLockStatus : Type 0 where
  acquired owner_dead : MutexLockStatus

pub data MutexTryLockStatus : Type 0 where
  acquired busy owner_dead : MutexTryLockStatus

abbrev pub is_busy : MutexTryLockStatus → Bool
is_busy MutexTryLockStatus.busy = true
is_busy _ = false

module _ {W : Type 0} (p : Pthread W) where
  unfoldable pub lock_with_recovery_status : Call W MutexLockStatus
  lock_with_recovery_status w =
      let (res, w') = p.mutex_lock w in
      if res == 0
      then (returns MutexLockStatus.acquired, w')
      else if p.robust && (res == p.owner_dead)
      then (returns MutexLockStatus.owner_dead, w')
      else (system_error res, w')

  unfoldable pub try_lock_with_recovery_status : Call W MutexTryLockStatus
  try_lock_with_recovery_status w =
      let (res, w') = p.mutex_trylock w in
      if res == 0
      then (returns MutexTryLockStatus.acquired, w')
      else if p.robust && (res == p.owner_dead)
      then (returns MutexTryLockStatus.owner_dead, w')
      else if p.robust && (res == p.not_recoverable)
      then (system_error res, w')
      else if res == p.busy
      then (returns MutexTryLockStatus.busy, w')
      else (system_error res, w')

  unfoldable pub unlock : Call W (Unit {0})
  unlock = checked p.mutex_unlock

  unfoldable pub mark_consistent : Call W (Unit {0})
  mark_consistent w = if p.robust then checked p.mutex_consistent w else (returns tt, w)

  unfoldable pub abandon_owner_dead_lock : Call W (Unit {0})
  abandon_owner_dead_lock w = if p.robust then checked p.mutex_unlock w else (returns tt, w)

  -- `abandon_owner_dead_lock(); throw MutexOwnerDeadError();`
  unfoldable pub abandoned : {A : Type 0} → Call W A
  abandoned w =
      let (done, w') = abandon_owner_dead_lock w in
      elim done [
        | returns _ ↦ (owner_dead_error, w')
        | system_error e ↦ (system_error e, w')
        | owner_dead_error ↦ (owner_dead_error, w')
      ]

  unfoldable pub lock : Call W (Unit {0})
  lock w =
      let (status, w') = lock_with_recovery_status w in
      elim status [
        | returns s ↦ elim s [
          | MutexLockStatus.acquired ↦ (returns tt, w')
          | MutexLockStatus.owner_dead ↦ abandoned w'
        ]
        | system_error e ↦ (system_error e, w')
        | owner_dead_error ↦ (owner_dead_error, w')
      ]

  -- what `try_lock` and `try_lock_until` make of the status
  unfoldable pub decide : Outcome MutexTryLockStatus → Call W Bool
  decide (returns MutexTryLockStatus.acquired) w = (returns true, w)
  decide (returns MutexTryLockStatus.busy) w = (returns false, w)
  decide (returns MutexTryLockStatus.owner_dead) w = abandoned w
  decide (system_error e) w = (system_error e, w)
  decide owner_dead_error w = (owner_dead_error, w)

  unfoldable pub try_lock : Call W Bool
  try_lock w = let (status, w') = try_lock_with_recovery_status w in decide status w'

  unfoldable pub try_lock_until_with_recovery_status :
      ℕ → Clock W → (deadline : ℕ) → W → Option (Outcome MutexTryLockStatus × W)
  try_lock_until_with_recovery_status fuel clock deadline w =
      poll fuel clock try_lock_with_recovery_status is_busy deadline w

  unfoldable pub try_lock_until : ℕ → Clock W → (deadline : ℕ) → W → Option (Outcome Bool × W)
  try_lock_until fuel clock deadline w =
      elim (try_lock_until_with_recovery_status fuel clock deadline w) [
        | none ↦ none
        | some (status, w') ↦ some (decide status w')
      ]

  -- `Clock::now() + timeout_duration`
  unfoldable pub try_lock_for : ℕ → Clock W → (timeout : ℕ) → W → Option (Outcome Bool × W)
  try_lock_for fuel clock timeout w =
      let (now, w') = clock.now w in try_lock_until fuel clock (now + timeout) w'
