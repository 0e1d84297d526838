-- ===== src/Allocator/Walks.antt =====
-- shared_memory_block_allocator.h: the walks over the physical chain of blocks and over the free
-- list. Each walk counts the blocks that it has visited and gives up behind `max_blocks`: the first
-- argument of a loop is the count of visits that are left, `max_blocks + 1` at the start.
pub mod Along
use shm_next.Base.{
  ℕ, zero, suc, ◌+◌, ◌%◌, Bool, true, false, not, ◌&&◌, ◌||◌, ltb, leb, ◌==◌, if◌then◌else◌, ◌+w◌,
  ◌-w◌,
}
use shm_next.Allocator.{
  Allocator, segment_end, max_blocks, block_header, allocation_header, alignment,
}

-- the test that the walks make of a block's size
abbrev pub bad_size : Allocator → ℕ → Bool
bad_size a p = ltb (a.size p) block_header || not ((a.size p % alignment) == 0)

-- the null pointer behind the last block
unfoldable pub physical_next : Allocator → ℕ → ℕ
physical_next a block =
    let next = block +w a.size block in if leb (segment_end a) next then 0 else next

unfoldable pub previous_loop : ℕ → Allocator → (target current prev : ℕ) → ℕ
previous_loop zero a target current prev = 0
previous_loop (suc visits) a target current prev =
    let next = current +w a.size current in
    let rest = previous_loop visits a target next current in
    if ltb current target
    then if bad_size a current then 0 else if leb next current || ltb target next then 0 else rest
    else if current == target
    then prev
    else 0

unfoldable pub physical_previous : Allocator → ℕ → ℕ
physical_previous a block = previous_loop (max_blocks a + 1) a block a.first_block 0

unfoldable pub last_loop : ℕ → Allocator → (current last : ℕ) → ℕ
last_loop zero a current last = 0
last_loop (suc visits) a current last =
    let next = current +w a.size current in
    let rest = last_loop visits a next current in
    if ltb current (segment_end a)
    then if bad_size a current
      then 0
      else if leb next current || ltb (segment_end a) next
      then 0
      else rest
    else if current == segment_end a
    then last
    else 0

unfoldable pub last_block : Allocator → ℕ
last_block a = last_loop (max_blocks a + 1) a a.first_block 0

unfoldable pub in_chain_loop : ℕ → Allocator → (target current : ℕ) → Bool
in_chain_loop zero a target current = false
in_chain_loop (suc visits) a target current =
    let next = current +w a.size current in
    let rest = in_chain_loop visits a target next in
    if ltb current (segment_end a)
    then if current == target
      then true
      else if bad_size a current
      then false
      else if leb next current || ltb (segment_end a) next
      then false
      else rest
    else false

unfoldable pub is_block_in_chain : Allocator → ℕ → Bool
is_block_in_chain a target = in_chain_loop (max_blocks a + 1) a target a.first_block

unfoldable pub in_free_loop : ℕ → Allocator → (target curr : ℕ) → Bool
in_free_loop zero a target curr = false
in_free_loop (suc visits) a target curr =
    let rest = in_free_loop visits a target (a.next_free curr) in
    if curr == 0 then false else if curr == target then true else rest

unfoldable pub is_in_free_list : Allocator → ℕ → Bool
is_in_free_list a target = in_free_loop (max_blocks a + 1) a target a.free_list_head

abbrev pub is_address_in_segment : Allocator → ℕ → Bool
is_address_in_segment a value = leb a.segment_base value && ltb value (segment_end a)

abbrev pub is_aligned_address : ℕ → Bool
is_aligned_address value = (value % alignment) == 0

unfoldable pub free_list_loop : ℕ → Allocator → (curr : ℕ) → Bool
free_list_loop zero a curr = false
free_list_loop (suc visits) a curr =
    let rest = free_list_loop visits a (a.next_free curr) in
    if curr == 0
    then true
    else if not (is_address_in_segment a curr)
        || not (is_aligned_address curr)
        || not (a.is_free curr)
        || not (is_block_in_chain a curr)
    then false
    else rest

unfoldable pub is_valid_free_list : Allocator → Bool
is_valid_free_list a = free_list_loop (max_blocks a + 1) a a.free_list_head

abbrev pub same : Bool → Bool → Bool
same true b = b
same false b = not b

unfoldable pub sanity_loop : ℕ → Allocator → (current : ℕ) → Bool
sanity_loop zero a current = false
sanity_loop (suc visits) a current =
    let next = current +w a.size current in
    let rest = sanity_loop visits a next in
    if ltb current (segment_end a)
    then if not (is_aligned_address current)
      then false
      else if bad_size a current
      then false
      else if leb next current || ltb (segment_end a) next
      then false
      else if not (same (a.is_free current) (is_in_free_list a current))
      then false
      else rest
    else current == segment_end a

unfoldable pub check_sanity : Allocator → Bool
check_sanity a =
    if (a.segment_base == 0) || (a.segment_size == 0) || (a.first_block == 0)
    then false
    else if not (is_valid_free_list a)
    then false
    else sanity_loop (max_blocks a + 1) a a.first_block

unfoldable pub owns : Allocator → ℕ → Bool
owns a ptr = not (ptr == 0) && is_address_in_segment a ptr

abbrev pub is_range_in_segment : Allocator → (begin size : ℕ) → Bool
is_range_in_segment a begin size =
    leb a.segment_base begin && leb begin (segment_end a) && leb size (segment_end a -w begin)

unfoldable pub has_allocation_header : Allocator → ℕ → Bool
unfolding owns
has_allocation_header a ptr =
    if not (owns a ptr)
    then false
    else if ltb ptr allocation_header
    then false
    else is_range_in_segment a (ptr -w allocation_header) allocation_header

unfoldable pub is_valid_payload : Allocator → (ptr block : ℕ) → Bool
is_valid_payload a ptr block =
    if not (has_allocation_header a ptr) || (block == 0)
    then false
    else if not (is_address_in_segment a block)
        || not (is_aligned_address block)
        || not (is_block_in_chain a block)
    then false
    else let block_payload_begin = block +w block_header +w allocation_header in
      let block_end = block +w a.size block in
      leb block_payload_begin ptr
      && ltb ptr block_end
      && leb (a.requested_size (ptr -w allocation_header)) (block_end -w ptr)

unfoldable pub all_memory_deallocated : Allocator → Bool
all_memory_deallocated a =
    let first = a.first_block in
    if first == 0
    then false
    else a.is_free first
      && (a.size first == (segment_end a -w first))
      && (a.next_free first == 0)
      && (a.free_list_head == first)
