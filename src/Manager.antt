-- ===== src/Manager.antt =====
-- interprocess/allocator/shared_memory_manager.h: the calls of the manager under its lock, and the calls
-- that read without it.
--
-- A writer makes the metadata generation odd before it changes the metadata and even afterwards.
-- `content` is the metadata that a call may read; its type is a parameter. `Reading` is a function that
-- reads the metadata step by step, each time as it stands then. The state that a reader finds at its
-- load number t is `m t`.
pub mod Events
pub mod Snapshots
pub mod Waiting
pub mod Locking
pub mod Lifecycle
pub mod Start
pub mod Attaching
pub mod Processes
pub mod Soundness
use shm_next.Base.{
  ℕ, zero, suc, ◌+◌, ◌%◌, ◌≡◌, Bool, true, false, Option, none, some, List, [], ◌∷◌, ◌==◌,
  if◌then◌else◌, ◌+w◌, ◌⊎◌, inl, inr,
}
use shm_next.Errors.{InterprocessErrc, metadata_changed_during_read, initialization_corrupted}
use shm_next.Sync.{Outcome, returns, system_error, owner_dead_error}
use shm_next.Sync.Mutex.{
  Pthread, MutexLockStatus, acquired, owner_dead, lock_with_recovery_status, mark_consistent,
  unlock,
}

pub record Metadata (A : Type 0) : Type 0 where
  pub generation : ℕ
  pub content : A

-- the attempts of a reader
abbrev pub max_attempts : ℕ
max_attempts = 1024

pub data Reading (A B : Type 0) : Type 0 where
  give : B → Reading A B
  fail : InterprocessErrc → Reading A B
  look : (A → Reading A B) → Reading A B

module _ {A : Type 0} where
  unfoldable pub begin_metadata_write : Metadata A → Metadata A
  begin_metadata_write m =
      if m.generation % 2 == 0 then record m { generation = m.generation +w 1 } else m

  unfoldable pub end_metadata_write : Metadata A → Metadata A
  end_metadata_write m =
      if m.generation % 2 == 0 then m else record m { generation = m.generation +w 1 }

  -- what stands between the two ends of a `MetadataWriteGuard`: the function gives a result or throws,
  -- and changes the metadata in both cases
  unfoldable pub write_guarded :
      {B : Type 0}
      → (A → (InterprocessErrc ⊎ B) × A)
      → Metadata A
      → (InterprocessErrc ⊎ B) × Metadata A
  write_guarded func m =
      let begun = begin_metadata_write m in
      let (result, content) = func begun.content in
      (result, end_metadata_write (record begun { content = content }))

  -- the loop of `wait_for_stable_metadata_generation`: the generation, if it became even, and the time
  unfoldable pub wait_for_stable_metadata_generation :
      (attempts : ℕ) → (m : ℕ → Metadata A) → (t : ℕ) → Option ℕ × ℕ
  wait_for_stable_metadata_generation zero m t = (none, t)
  wait_for_stable_metadata_generation (suc attempts) m t =
      let rest = wait_for_stable_metadata_generation attempts m (suc t) in
      if (m t).generation % 2 == 0 then (some (m t).generation, suc t) else rest

  -- what a function that reads gives, and the time afterwards
  unfoldable pub read :
      {B : Type 0} → Reading A B → (m : ℕ → Metadata A) → (t : ℕ) → (InterprocessErrc ⊎ B) × ℕ
  read (give b) m t = (inr b, t)
  read (fail e) m t = (inl e, t)
  read (look k) m t = read (k (m t).content) m (suc t)

  -- The loop of `with_read_only_snapshot`; a function that throws is tried again too, unless nothing
  -- was written.
  unfoldable pub snapshot_loop :
      {B : Type 0}
      → (attempts : ℕ) → Reading A B
      → (m : ℕ → Metadata A) → (t : ℕ) → InterprocessErrc ⊎ B
  snapshot_loop zero func m t = inl metadata_changed_during_read
  snapshot_loop (suc attempts) func m t =
      let (stable, start) = wait_for_stable_metadata_generation max_attempts m t in
      let (result, end) = read func m start in
      let rest = snapshot_loop attempts func m (suc end) in
      elim stable [
        | none ↦ inl metadata_changed_during_read
        | some generation ↦ if (m end).generation == generation then result else rest
      ]

  abbrev pub with_read_only_snapshot :
      {B : Type 0} → Reading A B → (m : ℕ → Metadata A) → InterprocessErrc ⊎ B
  with_read_only_snapshot func m = snapshot_loop max_attempts func m 0

-- How a call under the manager's mutex ends: as the calls of the mutex do, or with an error of the library.
pub data Result (B : Type 0) : Type 0 where
  ended : Outcome B → Result B
  refused : InterprocessErrc → Result B

abbrev pub to_result : {B : Type 0} → InterprocessErrc ⊎ B → Result B
to_result (inl e) = refused e
to_result (inr b) = ended (returns b)

-- `pthread` is the mutex, whose state is `W`, and `sane` is `check_sanity_unlocked`.
module _ {A W : Type 0} (pthread : Pthread W) (sane : A → Bool) where
  abbrev pub Locking : Type 0 → Type 0
  Locking B = Result B × Metadata A × W

  abbrev pub unlocked : {B : Type 0} → Result B → Metadata A → Outcome (Unit {0}) × W → Locking B
  unlocked r m (returns _, w) = (r, m, w)
  unlocked r m (system_error c, w) = (ended (system_error c), m, w)
  unlocked r m (owner_dead_error, w) = (ended owner_dead_error, m, w)

  -- `mutex.unlock(); throw;`
  abbrev pub unlock_and : {B : Type 0} → Result B → Metadata A → W → Locking B
  unlock_and r m w = unlocked r m (unlock pthread w)

  abbrev pub recovered : Metadata A → Outcome (Unit {0}) × W → Locking (Unit {0})
  recovered m (returns _, w) = (ended (returns tt), end_metadata_write m, w)
  recovered m (system_error c, w) = unlock_and (ended (system_error c)) m w
  recovered m (owner_dead_error, w) = unlock_and (ended owner_dead_error) m w

  abbrev pub after_lock : Metadata A → Outcome MutexLockStatus × W → Locking (Unit {0})
  after_lock m (returns acquired, w) = (ended (returns tt), m, w)
  after_lock m (returns owner_dead, w) =
      if sane m.content
      then recovered m (mark_consistent pthread w)
      else unlock_and (refused initialization_corrupted) m w
  after_lock m (system_error c, w) = (ended (system_error c), m, w)
  after_lock m (owner_dead_error, w) = (ended owner_dead_error, m, w)

  unfoldable pub lock_for_manager_recovery : Metadata A → W → Locking (Unit {0})
  lock_for_manager_recovery m w = after_lock m (lock_with_recovery_status pthread w)

  -- The mutex is released; where that throws after the function returned, the handler releases it again.
  abbrev pub released :
      {B : Type 0} → InterprocessErrc ⊎ B → Metadata A → W → Outcome (Unit {0}) × W → Locking B
  released result m w (returns _, w') = (to_result result, m, w')
  released (inl e) m w (system_error c, w') = (ended (system_error c), m, w')
  released (inl e) m w (owner_dead_error, w') = (ended owner_dead_error, m, w')
  released (inr b) m w (system_error c, w') = unlock_and (ended (system_error c)) m w'
  released (inr b) m w (owner_dead_error, w') = unlock_and (ended owner_dead_error) m w'

  abbrev pub guarded :
      {B : Type 0} → (A → (InterprocessErrc ⊎ B) × A) → Locking (Unit {0}) → Locking B
  guarded func (ended (returns _), m, w) =
      let (result, m') = write_guarded func m in released result m' w (unlock pthread w)
  guarded func (ended (system_error c), m, w) = (ended (system_error c), m, w)
  guarded func (ended owner_dead_error, m, w) = (ended owner_dead_error, m, w)
  guarded func (refused e, m, w) = (refused e, m, w)

  -- `with_manager_write_lock` without the shared mutex of a build that has one
  unfoldable pub with_manager_write_lock :
      {B : Type 0} → (A → (InterprocessErrc ⊎ B) × A) → Metadata A → W → Locking B
  with_manager_write_lock func m w = guarded func (lock_for_manager_recovery m w)
