-- ===== src/Manager/Lifecycle.antt =====
-- shared_memory_manager.h: the state word, `create`, `attach`, and the size of the segment.
--
-- `manager_size` is `sizeof(SharedMemoryManager)` and `current_layout_version` the version that this
-- build writes; both depend on the platform and the build. `mutex_made` tells whether the constructor of
-- the manager's mutex returned.
use shm_next.Base.{inr, ℕ, ◌+◌, Bool, true, false, ◌&&◌, ltb, leb, ◌==◌, if◌then◌else◌}
use shm_next.Errors.{
  InterprocessErrc, segment_too_small, initialization_in_progress, initialization_corrupted,
  magic_mismatch, unsupported_layout_version, layout_header_mismatch,
}
use shm_next.Allocator.{Allocator, Run, ok, throw, endless, block_header}
use shm_next.Allocator.Calls
use shm_next.Allocator.Walks.{check_sanity}
use shm_next.Registry
use shm_next.Manager.{write_guarded}
use shm_next.Registry.{Registry}

abbrev pub uninitialized : ℕ
uninitialized = 0

abbrev pub initializing : ℕ
initializing = 1

abbrev pub initialized : ℕ
initialized = 2

abbrev pub corrupted : ℕ
corrupted = 3

-- "SMM4"
abbrev pub magic_number : ℕ
magic_number = 0x534D4D34

abbrev pub min_supported_layout_version : ℕ
min_supported_layout_version = 1

pub record Segment : Type 0 where
  pub initialization_state : ℕ
  pub magic : ℕ
  pub layout_version : ℕ
  pub header_size : ℕ
  pub metadata_generation : ℕ
  pub total_size : ℕ
  pub block_allocator : Allocator
  pub named_objects : Registry

-- `none` is a call that returns.
pub data Outcome : Type 0 where
  returned : Outcome
  refused : InterprocessErrc → Outcome
  system_error : Outcome

-- the error for a segment that is not in the state that a call needs
abbrev pub state_error : ℕ → InterprocessErrc
state_error state =
    if state == corrupted then initialization_corrupted else initialization_in_progress

-- the members that come behind the mutex, and what `initialize` left of the block allocator
abbrev pub filled : (total_size : ℕ) → Allocator → Segment → Segment
filled total_size a s = record s {
  metadata_generation = 0;
  total_size = total_size;
  block_allocator = a;
  named_objects = Registry.initialize s.named_objects;
}

abbrev pub signed : Segment → Segment
signed s = record s { magic = magic_number }

abbrev pub published : Segment → Segment
published s = record s { initialization_state = initialized }

abbrev pub mark_corrupted : Segment → Segment
mark_corrupted s = record s { initialization_state = corrupted }

module _ (manager_size current_layout_version : ℕ) where
  abbrev pub is_supported_layout_version : ℕ → Bool
  is_supported_layout_version version =
      leb min_supported_layout_version version && leb version current_layout_version

  -- the first part of `create`, up to the exchange of the state word
  unfoldable pub claim : (total_size : ℕ) → Segment → Outcome × Segment
  claim total_size s =
      if ltb total_size (manager_size + block_header)
      then (refused segment_too_small, s)
      else if s.initialization_state == uninitialized
      then (returned, record s { initialization_state = initializing })
      else (refused (state_error s.initialization_state), s)

  -- what the constructor writes before the mutex is made
  abbrev pub begun : Segment → Segment
  begun s = record s {
    initialization_state = initializing;
    magic = 0;
    layout_version = current_layout_version;
    header_size = manager_size;
  }

  -- the end of the constructor
  abbrev pub finish : (total_size : ℕ) → Run (Unit {0}) → Segment → Outcome × Segment
  finish total_size (ok _ a) s = (returned, published (signed (filled total_size a s)))
  finish total_size (throw e a) s = (refused e, mark_corrupted (filled total_size a s))
  finish total_size endless s = (system_error, s)

  -- the constructor, and the handler of what it throws
  unfoldable pub construct :
      (mutex_made : Bool) → (base_addr total_size : ℕ) → Segment → Outcome × Segment
  construct false base_addr total_size s = (system_error, mark_corrupted (begun s))
  construct true base_addr total_size s =
      finish total_size (Calls.initialize base_addr manager_size total_size s.block_allocator)
        (begun s)

  abbrev pub construct_if :
      (mutex_made : Bool) → (base_addr total_size : ℕ) → Outcome × Segment → Outcome × Segment
  construct_if mutex_made base_addr total_size (returned, s) =
      construct mutex_made base_addr total_size s
  construct_if mutex_made base_addr total_size (refused e, s) = (refused e, s)
  construct_if mutex_made base_addr total_size (system_error, s) = (system_error, s)

  abbrev pub create : (mutex_made : Bool) → (base_addr total_size : ℕ) → Segment → Outcome × Segment
  create mutex_made base_addr total_size s =
      construct_if mutex_made base_addr total_size (claim total_size s)

  unfoldable pub attach : Segment → Outcome
  attach s =
      if s.initialization_state == initialized
      then if s.magic == magic_number
        then if is_supported_layout_version s.layout_version
          then if s.header_size == manager_size then returned else refused layout_header_mismatch
          else refused unsupported_layout_version
        else refused magic_mismatch
      else refused (state_error s.initialization_state)

  unfoldable pub check_sanity_unlocked : Segment → Bool
  check_sanity_unlocked s =
      (s.initialization_state == initialized)
      && (s.magic == magic_number)
      && is_supported_layout_version s.layout_version
      && (s.header_size == manager_size)
      && check_sanity s.block_allocator

-- the generation after a call under the write lock
abbrev pub written : (generation : ℕ) → ℕ
written generation =
    (write_guarded (λ c. (inr c, c))
      (record { generation = generation; content = tt {0} })).1.generation

-- what `grow_to_size` does with the answer of the block allocator
abbrev pub resized : (new_total_size : ℕ) → Run Bool → Segment → Run Bool × Segment
resized new_total_size (ok true a) s =
    (ok true a, record s { block_allocator = a; total_size = new_total_size })
resized new_total_size (ok false a) s = (ok false a, record s { block_allocator = a })
resized new_total_size (throw e a) s = (throw e a, record s { block_allocator = a })
resized new_total_size endless s = (endless, s)

unfoldable pub grow_to_size : (new_total_size : ℕ) → Segment → Run Bool × Segment
grow_to_size new_total_size s =
    let u = record s { metadata_generation = written s.metadata_generation } in
    if leb new_total_size s.total_size
    then (ok false s.block_allocator, u)
    else resized new_total_size (Calls.grow new_total_size s.block_allocator) u

abbrev pub shrunk : Run ℕ → Segment → Run ℕ × Segment
shrunk (ok n a) s = (ok n a, record s { block_allocator = a; total_size = n })
shrunk (throw e a) s = (throw e a, record s { block_allocator = a })
shrunk endless s = (endless, s)

unfoldable pub shrink_to_fit : Segment → Run ℕ × Segment
shrink_to_fit s =
    shrunk (Calls.shrink_to_fit s.block_allocator)
      (record s { metadata_generation = written s.metadata_generation })
