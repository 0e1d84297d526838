-- ===== src/Tests/Resizing.antt =====
-- The theorems on the calls that change the segment's length, or a block's, or take many blocks.
use shm_next.Base.{ℕ, refl, [], ◌∷◌, List, arith}
use shm_next.Allocator.Calls.{try_expand, allocate_many, grow, shrink_to_fit}
use shm_next.StandardAllocator
use shm_next.Allocator.Count
use shm_next.Allocator.Calls
use shm_next.Allocator.Resize.{Resized}
use shm_next.Allocator.Grow.{grow-Resized}
use shm_next.Allocator.Shrink.{shrink_to_fit-Resized}
use shm_next.Allocator.Enlarge.{Expanded}
use shm_next.Allocator.Expand.{try_expand-Expanded}
use shm_next.Allocator.Many.{Many, Serves, allocate_many-Many}
use shm_next.Tests.States.{
  start, busy, session, start-IsValid, busy-IsValid, left-IsLive, session-IsSafe,
}

abbrev one : List ℕ
one = 0x10040 ∷ []

abbrev two : List ℕ
two = 0x10040 ∷ 0x100E0 ∷ []

grow-Resized_example : Resized busy two (grow 2048 busy)
grow-Resized_example = grow-Resized busy two [] 2048 busy-IsValid refl (omega arith)

shrink_to_fit-Resized_example : Resized start one (shrink_to_fit start)
shrink_to_fit-Resized_example = shrink_to_fit-Resized start one one start-IsValid

try_expand-Expanded_example : Expanded busy two 0x10040 0x10070 120 (try_expand 0x10070 120 16 busy)
try_expand-Expanded_example =
    try_expand-Expanded busy two [] 0x10040 0x10070 120 16 busy-IsValid left-IsLive (omega arith)
      (omega arith) (omega arith)

abbrev session-Serves : Serves busy session.held
session-Serves = record { blocks = two; list = []; safe = session-IsSafe }

allocate_many-Many_example :
    Many 64 16 (Count.allocate_many_call busy) session.held 3 (allocate_many 64 3 16 busy)
allocate_many-Many_example =
    allocate_many-Many session.held 64 16 (omega arith) (omega arith) (omega arith) 3 busy
      session-Serves
