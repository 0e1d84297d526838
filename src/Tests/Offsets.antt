-- ===== src/Tests/Offsets.antt =====
-- The theorems on offset pointers, for a pointer at 0x1000.
use shm_next.Base.{◌≡◌, refl, arith, pos}
use shm_next.OffsetPtr.{try_make_offset, set_pointer, get}
use shm_next.OffsetPtr.Laws.{get-set_pointer_moved}

get-set_pointer_moved_example : get 0x9000 (pos 0x200) ≡ 0x9200
unfolding set_pointer try_make_offset
get-set_pointer_moved_example =
    get-set_pointer_moved 0x1000 0x1200 0x9000 0x9200 (omega arith) (omega arith) (omega arith)
      (omega arith) (omega arith) refl refl
