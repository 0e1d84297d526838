-- ===== src/Allocator/FreeList/Links.antt =====
-- The links of the free list.
pub use shm_next.Base.{Links, Links-frame, Links-has_null}
use shm_next.Base.{ℕ, ◌==◌, if◌then◌else◌}
use shm_next.Allocator.{Allocator}

-- The allocator with other links.
abbrev pub relink : ℕ → (ℕ → ℕ) → Allocator → Allocator
relink head next a = record a { free_list_head = head; next_free = next }

-- The link behind `prev`, which is the head of the list where there is no block before.
abbrev pub link : ℕ → (ℕ → ℕ) → ℕ → ℕ
link head next prev = if prev == 0 then head else next prev
