-- ===== src/Allocator/Layout/Bounds.antt =====
-- shared_memory_block_allocator.h: where `make_layout` puts a payload.
use shm_next.Base.{ℕ, ◌+◌, ◌-◌, ◌%◌, ◌≤◌, ◌<◌, ◌≡◌, refl, arith, word, ◌+w◌, ◌-w◌}
use shm_next.Allocator.Layout.{AllocationLayout, align_up, make_layout}
use shm_next.Allocator.Layout.Align.{align_up-IsAlignedUp}

-- The payload lies behind both headers, is aligned, and ends within `total_size` bytes.
pub record Fits (block size payload_alignment : ℕ) (l : AllocationLayout) : Type 0 where
  pub behind : block + 48 ≤ l.payload
  pub near : l.payload < block + 48 + payload_alignment
  pub aligned : l.payload % payload_alignment ≡ 0
  pub within : l.payload + size ≤ block + l.total_size
  pub tight : block + l.total_size < l.payload + size + 16
  pub rounded : l.total_size % 16 ≡ 0

-- Where no address wraps, `make_layout` puts the payload behind both headers at the first aligned
-- address, and the total size is the least multiple of 16 that covers it.
pub make_layout-Fits :
    (block size payload_alignment : ℕ)
    → 0 < payload_alignment
    → block + 48 + payload_alignment + size + 16 ≤ word
    → Fits block size payload_alignment (make_layout block size payload_alignment)
unfolding make_layout
make_layout-Fits block size n p h =
    let e : block +w 32 +w 16 ≡ block + 48 = omega arith in
    let up = align_up-IsAlignedUp (block + 48) n p (omega arith) in
    let q : ℕ = align_up (block + 48) n in
    let e' : q +w size -w block ≡ q + size - block = omega arith in
    let up' = align_up-IsAlignedUp (q + size - block) 16 (omega arith) (omega arith) in
    rw (e, e')
      (record {
        behind = up.above;
        near = up.below;
        aligned = up.multiple;
        within = omega arith;
        tight = omega arith;
        rounded = up'.multiple;
      })

-- Where the requested size is within 48 of 2 ^ 64, the sum of payload and size wraps: the payload of
-- an aligned block starts where the total size of at most 48 bytes ends.
pub make_layout-wraps :
    (block k : ℕ)
    → block % 16 ≡ 0
    → block + 64 ≤ word
    → 0 < k
    → k ≤ 48
    → ((make_layout block (word - k) 16).payload ≡ block + 48)
      × ((make_layout block (word - k) 16).total_size ≤ 48)
unfolding make_layout
make_layout-wraps block k al room pos le =
    let e : block +w 32 +w 16 ≡ block + 48 = omega arith in
    let up = align_up-IsAlignedUp (block + 48) 16 (omega arith) (omega arith) in
    let q : align_up (block + 48) 16 ≡ block + 48 =
      omega (arith, up.above, up.below, up.multiple) in
    let e' : block + 48 +w (word - k) -w block ≡ 48 - k = omega arith in
    let up' = align_up-IsAlignedUp (48 - k) 16 (omega arith) (omega arith) in
    rw (e, q, e') (refl, omega (arith, up'.below, up'.multiple))
