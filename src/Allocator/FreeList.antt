-- ===== src/Allocator/FreeList.antt =====
-- shared_memory_block_allocator.h: the free list, a singly linked list of free blocks in the order
-- of their sizes, and of their addresses where the sizes agree. Its loops have no bound in the
-- source; here they take fuel, one round more than `max_blocks`.
pub mod Links
pub mod Insert
pub mod Remove
pub mod Order
use shm_next.Base.{
  ℕ, zero, suc, ◌+◌, Bool, true, ◌&&◌, ◌||◌, ltb, ◌==◌, if◌then◌else◌, update, ◌+w◌, ◌-w◌,
}
use shm_next.Allocator.{
  Allocator, ok, endless, M, put_size, put_free, put_next, max_blocks, block_header, alignment,
}

-- `prev->next_free = p`, or `free_list_head = p` where there is no previous block
abbrev pub put_link : (prev p : ℕ) → Allocator → Allocator
put_link prev p a = record a {
  free_list_head = if prev == 0 then p else a.free_list_head;
  next_free = if prev == 0 then a.next_free else update a.next_free prev p;
}

-- `curr` stands before `block` in the order of the list.
abbrev pub before : (ℕ → ℕ) → (curr block : ℕ) → Bool
before size curr block =
    ltb (size curr) (size block) || ((size curr == size block) && ltb curr block)

unfoldable pub insert_loop : ℕ → (prev curr block : ℕ) → M (Unit {0})
insert_loop zero prev curr block a = endless
insert_loop (suc fuel) prev curr block a =
    let rest = insert_loop fuel curr (a.next_free curr) block a in
    if curr == 0
    then ok tt (put_link prev block (put_next block curr a))
    else if before a.size curr block
    then rest
    else ok tt (put_link prev block (put_next block curr a))

unfoldable pub insert_free_block : ℕ → M (Unit {0})
insert_free_block block a = insert_loop (max_blocks a + 1) 0 a.free_list_head block a

-- `remove_free_block(prev, target)`
unfoldable pub unlink : (prev target : ℕ) → Allocator → Allocator
unlink prev target a = put_next target 0 (put_link prev (a.next_free target) a)

unfoldable pub remove_loop : ℕ → (prev curr target : ℕ) → M (Unit {0})
remove_loop zero prev curr target a = endless
remove_loop (suc fuel) prev curr target a =
    let rest = remove_loop fuel curr (a.next_free curr) target a in
    if curr == 0 then ok tt a else if curr == target then ok tt (unlink prev curr a) else rest

-- `remove_free_block(target)`: a block that is not in the list is left alone.
unfoldable pub remove_free_block : ℕ → M (Unit {0})
remove_free_block target a = remove_loop (max_blocks a + 1) 0 a.free_list_head target a

abbrev pub count_split : Allocator → Allocator
count_split a = record a {
  counters = record (a.counters) { total_split_count = a.counters.total_split_count +w 1 };
}

-- the new block behind the first `used_size` bytes of `block`
abbrev pub carve : (block used_size new_block remaining_size : ℕ) → Allocator → Allocator
carve block used new_block remaining a =
    put_size block used (
      put_next new_block 0 (put_free new_block true (put_size new_block remaining (count_split a))))

unfoldable pub split_allocated_block : (block used_size : ℕ) → M (Unit {0})
split_allocated_block block used a =
    let remaining = a.size block -w used in
    if ltb remaining (block_header + alignment)
    then ok tt a
    else insert_free_block (block +w used) (carve block used (block +w used) remaining a)
