-- ===== src/Tests/BlockAllocator.antt =====
-- The block allocator at a segment of 1024 bytes at 0x10000 behind a manager of 64 bytes.
use shm_next.Base.{ℕ, ◌≡◌, refl, Bool, true, false, List, [], ◌∷◌}
use shm_next.Allocator.{Allocator, Run, ok, throw, endless, M, ◌>>=◌, ◌>>◌, pure}
use shm_next.Allocator.Count
use shm_next.Allocator.Layout.{align_down, align_up, normalize_alignment, make_layout}
use shm_next.Allocator.FreeList.{
  insert_loop, insert_free_block, unlink, remove_loop, remove_free_block, split_allocated_block,
}
use shm_next.Allocator.Walks.{
  physical_next, previous_loop, physical_previous, last_loop, last_block, in_chain_loop,
  is_block_in_chain, in_free_loop, is_in_free_list, free_list_loop, is_valid_free_list, sanity_loop,
  check_sanity, owns, has_allocation_header, is_valid_payload,
}
use shm_next.Allocator.Calls.{
  initialize, allocate_from_block, allocate_loop, allocate, absorb, merge_next, merge_previous,
  deallocate_block, deallocate, expand_into_next, try_expand, grow, shrink_to_fit,
}

code : Unit {0}
unfolding align_down align_up normalize_alignment make_layout insert_loop insert_free_block unlink
    remove_loop remove_free_block split_allocated_block physical_next previous_loop
    physical_previous last_loop last_block in_chain_loop is_block_in_chain in_free_loop
    is_in_free_list free_list_loop is_valid_free_list sanity_loop check_sanity owns
    has_allocation_header is_valid_payload initialize allocate_from_block allocate_loop allocate
    absorb merge_next merge_previous deallocate_block deallocate expand_into_next try_expand grow
    shrink_to_fit
code = tt

abbrev blank : Allocator
blank = record {
  segment_base = 0;
  segment_size = 0;
  first_block = 0;
  free_list_head = 0;
  counters = Count.none;
  size = λ _. 0;
  is_free = λ _. false;
  next_free = λ _. 0;
  header_block = λ _. 0;
  requested_size = λ _. 0;
}

abbrev sane : M Bool
sane a = ok (check_sanity a) a

abbrev result : {A : Type 0} → Run A → List A
result (ok x a) = x ∷ []
result (throw e a) = []
result endless = []

abbrev program : M (ℕ × ℕ × ℕ × Bool × Bool × ℕ × Bool)
program = do
  initialize 0x10000 64 1024
  p ← allocate 100 16
  q ← allocate 200 64
  deallocate p
  r ← allocate 50 16
  s ← sane
  big ← try_expand q 300 64
  _ ← grow 2048
  n ← shrink_to_fit
  deallocate q
  deallocate r
  t ← sane
  pure (p, q, r, s, big, n, t)

result-program : result (program blank) ≡ (0x10070, 0x10140, 0x10070, true, true, 624, true) ∷ []
unfolding code
result-program = refl
