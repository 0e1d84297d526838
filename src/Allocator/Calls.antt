-- ===== src/Allocator/Calls.antt =====
-- shared_memory_block_allocator.h: the public calls of the block allocator.
use mathlib.Core.List.{reverse}
use shm_next.Base.{
  ℕ, zero, suc, ◌+◌, Bool, true, false, not, ◌&&◌, ◌||◌, Option, none, some, List, [], ◌∷◌, ltb,
  leb, ◌==◌, if◌then◌else◌, update, ◌+w◌, ◌-w◌,
}
use shm_next.Errors.{InterprocessErrc, segment_too_small, bad_alloc, invalid_pointer, double_free}
use shm_next.Allocator.{
  Allocator, ok, throw, endless, M, pure, ◌>>=◌, ◌>>◌, modify, raise, put_size, put_free, put_next,
  put_header, segment_end, max_blocks, block_header, allocation_header, alignment,
}
use shm_next.Allocator.Count
use shm_next.Allocator.Layout.{
  AllocationLayout, align_up, align_down, normalize_alignment, make_layout,
}
use shm_next.Allocator.FreeList.{
  insert_free_block, unlink, remove_free_block, split_allocated_block,
}
use shm_next.Allocator.Walks.{
  physical_next, physical_previous, last_block, has_allocation_header, is_valid_payload,
}

-- the writes of `initialize`, with the first block at `first`
abbrev pub fresh : (segment_base total_size first size : ℕ) → Allocator → Allocator
fresh base total first size a =
    record (put_next first 0 (put_free first true (put_size first size a))) {
      segment_base = base;
      segment_size = total;
      first_block = first;
      free_list_head = first;
      counters = Count.none;
    }

unfoldable pub initialize : (segment_base manager_header_size total_size : ℕ) → M (Unit {0})
initialize base manager_header_size total_size a =
    let header_size = align_up manager_header_size alignment in
    if ltb total_size (header_size +w block_header)
    then throw segment_too_small a
    else ok tt (fresh base total_size (base +w header_size) (total_size -w header_size) a)

unfoldable pub allocate_from_block : (prev curr : ℕ) → AllocationLayout → ℕ → M ℕ
allocate_from_block prev curr layout requested_size = do
  modify (unlink prev curr)
  split_allocated_block curr layout.total_size
  modify λ a.
      put_header (layout.payload -w allocation_header) curr requested_size
        (put_next curr 0 (put_free curr false a))
  pure layout.payload

-- the loop of `allocate` over the free list, and what follows it
unfoldable pub allocate_loop : ℕ → (size payload_alignment prev curr : ℕ) → M ℕ
allocate_loop zero size payload_alignment prev curr a = endless
allocate_loop (suc fuel) size payload_alignment prev curr a =
    let rest = allocate_loop fuel size payload_alignment curr (a.next_free curr) a in
    let layout = make_layout curr size payload_alignment in
    if curr == 0
    then throw bad_alloc (Count.failed a)
    else if a.is_free curr && leb layout.total_size (a.size curr)
    then allocate_from_block prev curr layout size a
    else rest

-- `normalize_alignment` may not return.
abbrev pub aligned : {A : Type 0} → ℕ → (ℕ → M A) → M A
aligned requested next = elim (normalize_alignment requested) [
  | none ↦ λ a. endless
  | some n ↦ next n
]

unfoldable pub allocate : (size requested_alignment : ℕ) → M ℕ
allocate size requested_alignment = do
  modify Count.allocate_call
  if size == 0
      then pure 0
      else aligned requested_alignment
          λ n a. allocate_loop (max_blocks a + 1) size n 0 a.free_list_head a

-- `listed` leaves the free list, and the block `block` becomes a part of `into`.
unfoldable pub absorb : (listed into block : ℕ) → M (Unit {0})
absorb listed into block = do
  remove_free_block listed
  modify λ a. Count.merge (put_size into (a.size into +w a.size block) a)

unfoldable pub merge_next : ℕ → M (Unit {0})
merge_next block a =
    let next = physical_next a block in
    if not (next == 0) && a.is_free next then absorb next block next a else ok tt a

-- the block that `block` is a part of afterwards
unfoldable pub merge_previous : ℕ → M ℕ
merge_previous block a =
    let prev = physical_previous a block in
    if not (prev == 0) && a.is_free prev
    then (absorb prev prev block >> pure prev) a
    else ok block a

unfoldable pub deallocate_block : ℕ → M (Unit {0})
deallocate_block block = do
  modify λ a. put_next block 0 (put_free block true a)
  merge_next block
  block' ← merge_previous block
  modify λ a. put_next block' 0 (put_free block' true a)
  insert_free_block block'

unfoldable pub deallocate : ℕ → M (Unit {0})
deallocate ptr = do
  modify Count.deallocate_call
  if ptr == 0 then pure tt else λ a.
      let block = a.header_block (ptr -w allocation_header) in
      if not (has_allocation_header a ptr)
      then throw invalid_pointer a
      else if not (is_valid_payload a ptr block)
      then throw invalid_pointer a
      else if a.is_free block
      then throw double_free a
      else deallocate_block block a

-- The pointers that stand in `out` are given back, the last one first, and the error goes on.
unfoldable pub roll_back : {A : Type 0} → List ℕ → InterprocessErrc → M A
roll_back [] e = raise e
roll_back (p ∷ ps) e = deallocate p >> roll_back ps e

unfoldable pub allocate_many_loop : (count size requested_alignment : ℕ) → List ℕ → M (List ℕ)
allocate_many_loop zero size requested_alignment out a = ok (reverse out) a
allocate_many_loop (suc count) size requested_alignment out a =
    elim (allocate size requested_alignment a) [
      | ok p b ↦ allocate_many_loop count size requested_alignment (p ∷ out) b
      | throw e b ↦ roll_back out e b
      | endless ↦ endless
    ]

-- The result is what the call leaves in `out`.
unfoldable pub allocate_many : (size count requested_alignment : ℕ) → M (List ℕ)
allocate_many size count requested_alignment = do
  modify Count.allocate_many_call
  allocate_many_loop count size requested_alignment []

unfoldable pub deallocate_each : List ℕ → M (Unit {0})
deallocate_each [] = pure tt
deallocate_each (p ∷ ps) = deallocate p >> deallocate_each ps

unfoldable pub deallocate_many : List ℕ → M (Unit {0})
deallocate_many ptrs = do modify Count.deallocate_many_call; deallocate_each ptrs

abbrev pub expand_fails : M Bool
expand_fails a = ok false (Count.expand_failure a)

abbrev pub set_requested : (ptr new_size : ℕ) → Allocator → Allocator
set_requested ptr n a = record a {
  requested_size = update a.requested_size (ptr -w allocation_header) n;
}

abbrev pub expand_succeeds : (ptr new_size : ℕ) → M Bool
expand_succeeds ptr n a = ok true (Count.expand_success (set_requested ptr n a))

-- the part of `try_expand` that takes the next block in
unfoldable pub expand_into_next : (ptr new_size block total_size : ℕ) → M Bool
expand_into_next ptr new_size block total_size a =
    let next = physical_next a block in
    let combined_size = a.size block +w a.size next in
    if (next == 0) || not (a.is_free next)
    then expand_fails a
    else if ltb combined_size total_size
    then expand_fails a
    else (do
      remove_free_block next
      modify (put_size block combined_size)
      split_allocated_block block total_size
      expand_succeeds ptr new_size)
        a

unfoldable pub try_expand : (ptr new_size requested_alignment : ℕ) → M Bool
try_expand ptr new_size requested_alignment = do
  modify Count.expand_call
  λ a.
      let block = a.header_block (ptr -w allocation_header) in
      if (ptr == 0) || (new_size == 0) || not (has_allocation_header a ptr)
      then expand_fails a
      else if not (is_valid_payload a ptr block) || a.is_free block
      then expand_fails a
      else aligned requested_alignment
          (λ n b.
            let layout = make_layout block new_size n in
            if not (layout.payload == ptr)
            then expand_fails b
            else if leb layout.total_size (b.size block)
            then expand_succeeds ptr new_size b
            else expand_into_next ptr new_size block layout.total_size b)
          a

unfoldable pub grow : ℕ → M Bool
grow requested a =
    let new_size = align_down requested alignment in
    let old_end = segment_end a in
    let extra_size = new_size -w a.segment_size in
    let b = record a { segment_size = new_size } in
    let tail = physical_previous b old_end in
    if leb new_size a.segment_size
    then ok false a
    else if not (tail == 0) && b.is_free tail
    then (remove_free_block tail
          >> (modify (λ c. put_size tail (c.size tail +w extra_size) c)
              >> (insert_free_block tail >> pure true)))
        b
    else if ltb extra_size (block_header + alignment)
    then ok false a
    else (insert_free_block old_end >> pure true)
        (put_next old_end 0 (put_free old_end true (put_size old_end extra_size b)))

unfoldable pub shrink_to_fit : M ℕ
shrink_to_fit a =
    let last = last_block a in
    let keep_size = if last == a.first_block then block_header + alignment else 0 in
    let new_size = (last -w a.segment_base) +w keep_size in
    if (last == 0) || not (a.is_free last)
    then ok a.segment_size a
    else if leb (a.size last) keep_size
    then ok a.segment_size a
    else (do
      remove_free_block last
      if keep_size == 0 then pure tt else do
        modify λ b. put_next last 0 (put_free last true (put_size last keep_size b))
        insert_free_block last
      modify λ b. record b { segment_size = new_size }
      pure new_size)
        a

unfoldable pub free_memory_loop : ℕ → Allocator → (curr free_mem : ℕ) → Option ℕ
free_memory_loop zero a curr free_mem = none
free_memory_loop (suc fuel) a curr free_mem =
    let rest =
      free_memory_loop fuel a (a.next_free curr) (free_mem +w (a.size curr -w block_header)) in
    if curr == 0 then some free_mem else rest

unfoldable pub get_free_memory : Allocator → Option ℕ
get_free_memory a = free_memory_loop (max_blocks a + 1) a a.free_list_head 0

unfoldable pub allocation_size : ℕ → M ℕ
allocation_size ptr a =
    let block = a.header_block (ptr -w allocation_header) in
    if ptr == 0
    then ok 0 a
    else if not (has_allocation_header a ptr)
    then throw invalid_pointer a
    else if not (is_valid_payload a ptr block) || a.is_free block
    then throw invalid_pointer a
    else ok (a.requested_size (ptr -w allocation_header)) a
