-- ===== src/Allocator/Stats.antt =====
-- shared_memory_block_allocator.h, `get_stats`, and the record of interprocess/diagnostics.h. The ten
-- totals of that record are the allocator's counters, here one member `totals`.
pub mod Totals
use shm_next.Base.{
  ℕ, zero, suc, ◌+◌, Bool, true, false, not, ◌&&◌, ◌||◌, ltb, ◌==◌, if◌then◌else◌, ◌+w◌, ◌-w◌,
}
use shm_next.Allocator.{Counters, Allocator, segment_end, max_blocks, block_header}
use shm_next.Allocator.Count
use shm_next.Allocator.Walks.{is_aligned_address, bad_size, check_sanity}

pub record SharedMemoryAllocatorStats : Type 0 where
  pub segment_size : ℕ
  pub managed_bytes : ℕ
  pub allocated_block_bytes : ℕ
  pub free_block_bytes : ℕ
  pub free_payload_bytes : ℕ
  pub largest_free_block : ℕ
  pub largest_free_payload : ℕ
  pub block_count : ℕ
  pub allocated_block_count : ℕ
  pub free_block_count : ℕ
  pub free_list_count : ℕ
  pub sane : Bool
  pub totals : Counters

abbrev pub no_stats : (segment_size : ℕ) → SharedMemoryAllocatorStats
no_stats n = record {
  segment_size = n;
  managed_bytes = 0;
  allocated_block_bytes = 0;
  free_block_bytes = 0;
  free_payload_bytes = 0;
  largest_free_block = 0;
  largest_free_payload = 0;
  block_count = 0;
  allocated_block_count = 0;
  free_block_count = 0;
  free_list_count = 0;
  sane = false;
  totals = Count.none;
}

-- `if (value > largest) largest = value;`
abbrev pub larger : (value largest : ℕ) → ℕ
larger value largest = if ltb largest value then value else largest

unfoldable pub count_free : (size : ℕ) → SharedMemoryAllocatorStats → SharedMemoryAllocatorStats
count_free size s =
    let payload = size -w block_header in
    record s {
      block_count = s.block_count +w 1;
      free_block_count = s.free_block_count +w 1;
      free_block_bytes = s.free_block_bytes +w size;
      free_payload_bytes = s.free_payload_bytes +w payload;
      largest_free_block = larger size s.largest_free_block;
      largest_free_payload = larger payload s.largest_free_payload;
    }

unfoldable pub count_allocated :
    (size : ℕ) → SharedMemoryAllocatorStats → SharedMemoryAllocatorStats
count_allocated size s = record s {
  block_count = s.block_count +w 1;
  allocated_block_count = s.allocated_block_count +w 1;
  allocated_block_bytes = s.allocated_block_bytes +w size;
}

-- The loop over the blocks, with the visits that are left, and `physical_sane` at its end.
unfoldable pub stats_loop :
    ℕ → Allocator → (current : ℕ) → SharedMemoryAllocatorStats → Bool × SharedMemoryAllocatorStats
stats_loop zero a current s = (false, s)
stats_loop (suc visits) a current s =
    let size = a.size current in
    let next = current +w size in
    let s' = if a.is_free current then count_free size s else count_allocated size s in
    let rest = stats_loop visits a next s' in
    if ltb current (segment_end a)
    then if not (is_aligned_address current) || bad_size a current || ltb (segment_end a) next
      then (false, s)
      else rest
    else (current == segment_end a, s)

-- The loop over the free list: whether it ended before the bound, and how many blocks it saw.
unfoldable pub free_seen_loop : ℕ → Allocator → (curr seen : ℕ) → Bool × ℕ
free_seen_loop zero a curr seen = (false, seen)
free_seen_loop (suc visits) a curr seen =
    let rest = free_seen_loop visits a (a.next_free curr) (seen + 1) in
    if curr == 0 then (true, seen) else rest

unfoldable pub get_stats : Allocator → SharedMemoryAllocatorStats
get_stats a =
    let current = a.first_block in
    let managed = if ltb current (segment_end a) then segment_end a -w current else 0 in
    let (physical_sane, s) =
      stats_loop (max_blocks a) a current
        (record (no_stats a.segment_size) { managed_bytes = managed }) in
    let (ended, seen) = free_seen_loop (max_blocks a) a a.free_list_head 0 in
    if (a.segment_base == 0) || (a.segment_size == 0) || (a.first_block == 0)
    then no_stats a.segment_size
    else record s {
      free_list_count = seen;
      sane = physical_sane && ended && check_sanity a;
      totals = a.counters;
    }
