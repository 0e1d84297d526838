-- ===== src/StandardAllocator.antt =====
-- interprocess/allocator/shared_memory_allocator.h: the allocator of the containers, and the calls of
-- `SharedMemoryManager` (interprocess/allocator/shared_memory_manager.h) that it makes.
--
-- The manager's calls are those of the block allocator, under a lock that keeps two of them apart, which
-- is not modelled. A null array of pointers is not modelled. `size` and `alignment` are those of the
-- element type.
use shm_next.Base.{ℕ, ◌*◌, ◌/◌, ◌-◌, ◌%◌, Bool, false, List, ltb, ◌==◌, if◌then◌else◌, word}
use shm_next.Errors.{bad_alloc}
use shm_next.Allocator.{Allocator, M, Run, ok, throw, endless}
use shm_next.Allocator.Count
use shm_next.Allocator.Calls

abbrev pub max_size : (size : ℕ) → ℕ
max_size size = (word - 1) / size

-- `if (!ptr) throw std::bad_alloc();`
abbrev pub refuse_null : Run ℕ → Run ℕ
refuse_null (ok p a) = if p == 0 then throw bad_alloc a else ok p a
refuse_null (throw e a) = throw e a
refuse_null endless = endless

module _ (size alignment : ℕ) where
  unfoldable pub allocate : (n : ℕ) → M ℕ
  allocate n a =
      if ltb (max_size size) n
      then throw bad_alloc a
      else refuse_null (Calls.allocate ((n * size) % word) alignment a)

  unfoldable pub allocate_many : (n count : ℕ) → M (List ℕ)
  allocate_many n count a =
      if ltb (max_size size) n
      then throw bad_alloc a
      else Calls.allocate_many ((n * size) % word) count alignment a

  unfoldable pub deallocate : (p n : ℕ) → M (Unit {0})
  deallocate p n a = if p == 0 then ok tt a else Calls.deallocate p a

  unfoldable pub deallocate_many : (ptrs : List ℕ) → M (Unit {0})
  deallocate_many ptrs = Calls.deallocate_many ptrs

  unfoldable pub try_expand : (p old_count new_count : ℕ) → M Bool
  try_expand p old_count new_count a =
      if ltb (max_size size) new_count
      then ok false a
      else Calls.try_expand p ((new_count * size) % word) alignment a
