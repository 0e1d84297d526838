-- ===== src/Allocator/Layout.antt =====
-- interprocess/allocator/detail/shared_memory_block_allocator.h: alignment and the layout of a
-- payload in its block. `x & ~(align - 1)` is `x - x % align`, since every `align` here is a power
-- of two.
pub mod Align
pub mod Bounds
use shm_next.Base.{
  ℕ, zero, suc, ◌-◌, ◌*◌, ◌%◌, Option, none, some, ltb, if◌then◌else◌, word, ◌+w◌, ◌-w◌,
}

pub record AllocationLayout : Type 0 where
  pub payload : ℕ
  pub total_size : ℕ

unfoldable pub align_down : ℕ → ℕ → ℕ
align_down value align = value - value % align

unfoldable pub align_up : ℕ → ℕ → ℕ
align_up value align = let v = value +w (align -w 1) in v - v % align

-- `while (normalized < requested_alignment) normalized <<= 1;`, `none` when the fuel runs out
unfoldable pub normalize_loop : ℕ → (requested normalized : ℕ) → Option ℕ
normalize_loop zero requested normalized = none
normalize_loop (suc fuel) requested normalized =
    let rest = normalize_loop fuel requested ((normalized * 2) % word) in
    if ltb normalized requested then rest else some normalized

-- After 60 rounds the word is 0 and stays 0, so 64 rounds see every result that there is.
unfoldable pub normalize_alignment : ℕ → Option ℕ
unfolding normalize_loop
normalize_alignment requested = normalize_loop 64 requested 16

unfoldable pub make_layout : (block size payload_alignment : ℕ) → AllocationLayout
make_layout block size payload_alignment =
    let payload_start = align_up (block +w 32 +w 16) payload_alignment in
    record { payload = payload_start; total_size = align_up (payload_start +w size -w block) 16 }
