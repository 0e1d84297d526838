-- ===== src/Allocator.antt =====
-- interprocess/allocator/detail/shared_memory_block_allocator.h: the state of the block allocator.
--
-- The memory of the segment is kept field by field: `size p`, `is_free p` and `next_free p` are the
-- members of the `BlockHeader` at address p, `header_block p` and `requested_size p` those of the
-- `AllocationHeader` at address p. An `OffsetPtr` is kept as the address that it stands for, and
-- the null pointer is 0. Header cells of the two kinds are separate memories.
pub mod Layout
pub mod FreeList
pub mod Walks
pub mod Count
pub mod Calls
pub mod Chain
pub mod Invariant
pub mod Split
pub mod FirstFit
pub mod Take
pub mod Neighbours
pub mod Loose
pub mod Merge
pub mod Release
pub mod Resize
pub mod Room
pub mod Grow
pub mod Shrink
pub mod Enlarge
pub mod Combine
pub mod Expand
pub mod Pointers
pub mod DoubleFree
pub mod Sessions
pub mod Start
pub mod Many
pub mod FreeMemory
pub mod Sanity
pub mod Stats
use shm_next.Base.{ℕ, ◌+◌, ◌/◌, Bool, update, ◌+w◌}
use shm_next.Errors.{InterprocessErrc}

pub record Counters : Type 0 where
  pub total_allocate_calls : ℕ
  pub total_deallocate_calls : ℕ
  pub total_allocate_many_calls : ℕ
  pub total_deallocate_many_calls : ℕ
  pub total_failed_allocations : ℕ
  pub total_split_count : ℕ
  pub total_merge_count : ℕ
  pub total_try_expand_calls : ℕ
  pub total_try_expand_successes : ℕ
  pub total_try_expand_failures : ℕ

pub record Allocator : Type 0 where
  pub segment_base : ℕ
  pub segment_size : ℕ
  pub first_block : ℕ
  pub free_list_head : ℕ
  pub counters : Counters
  pub size : ℕ → ℕ
  pub is_free : ℕ → Bool
  pub next_free : ℕ → ℕ
  pub header_block : ℕ → ℕ
  pub requested_size : ℕ → ℕ

-- `sizeof(BlockHeader)`, which is `alignas(16)`.
abbrev pub block_header : ℕ
block_header = 32

-- `sizeof(AllocationHeader)`
abbrev pub allocation_header : ℕ
allocation_header = 16

abbrev pub alignment : ℕ
alignment = 16

-- A call returns, throws with the state that it leaves behind, or a loop of it has used up its fuel.
pub data Run (A : Type 0) : Type 0 where
  ok : A → Allocator → Run A
  throw : InterprocessErrc → Allocator → Run A
  endless : Run A

abbrev pub M : Type 0 → Type 0
M A = Allocator → Run A

abbrev pub pure : {A : Type 0} → A → M A
pure x a = ok x a

module _ {A B : Type 0} where
  abbrev pub and_then : Run A → (A → M B) → Run B
  and_then (ok x a) k = k x a
  and_then (throw e a) k = throw e a
  and_then endless k = endless

  infixl 5 ◌>>=◌ ◌>>◌
  abbrev pub ◌>>=◌ : M A → (A → M B) → M B
  ◌>>=◌ m k a = and_then (m a) k

  abbrev pub ◌>>◌ : M A → M B → M B
  m >> n = m >>= λ _. n

abbrev pub modify : (Allocator → Allocator) → M (Unit {0})
modify f a = ok tt (f a)

abbrev pub raise : {A : Type 0} → InterprocessErrc → M A
raise e a = throw e a

-- Writes of one member.
abbrev pub put_size : ℕ → ℕ → Allocator → Allocator
put_size p v a = record a { size = update a.size p v }

abbrev pub put_free : ℕ → Bool → Allocator → Allocator
put_free p v a = record a { is_free = update a.is_free p v }

abbrev pub put_next : ℕ → ℕ → Allocator → Allocator
put_next p v a = record a { next_free = update a.next_free p v }

abbrev pub put_header : ℕ → (block requested : ℕ) → Allocator → Allocator
put_header p b r a = record a {
  header_block = update a.header_block p b;
  requested_size = update a.requested_size p r;
}

abbrev pub segment_end : Allocator → ℕ
segment_end a = a.segment_base +w a.segment_size

-- the bound on the visited blocks, in every walk
abbrev pub max_blocks : Allocator → ℕ
max_blocks a = a.segment_size / alignment + 1
