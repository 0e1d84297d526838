-- ===== src/Allocator/Neighbours.antt =====
-- The neighbours that the walks find where the blocks cover the segment.
use shm_next.Base.{ℕ, ◌+◌, ◌≡◌, true, List, ◌⊎◌, arith, has, inl, inr, ◌+w◌, le→leb, gt→leb}
use shm_next.Allocator.{Allocator, segment_end, max_blocks}
use shm_next.Allocator.Chain.{Chain-Member, Chain-next}
use shm_next.Allocator.Invariant.{BlocksOf, length_lt_max}
use shm_next.Allocator.Walks.{physical_next, physical_previous, is_block_in_chain, last_block}
use shm_next.Allocator.Walks.Along.{previous_loop-Chain, in_chain_loop-has, last_loop-Chain}

module _ (a : Allocator) (bs : List ℕ) (blocks : BlocksOf a bs) where
  pub segment_end-eq : segment_end a ≡ a.segment_base + a.segment_size
  segment_end-eq = omega (arith, blocks.small)

  pub physical_next-cases :
      (b : ℕ)
      → has b bs ≡ true
      → ((physical_next a b ≡ 0) × (b + a.size b ≡ a.segment_base + a.segment_size))
        ⊎ ((physical_next a b ≡ b + a.size b) × (has (b + a.size b) bs ≡ true))
  unfolding physical_next
  physical_next-cases b i =
      let m = Chain-Member a.size _ _ b bs blocks.chain i in
      let e : b +w a.size b ≡ b + a.size b = omega (arith, m.below, blocks.small) in
      elim (Chain-next a.size _ _ b bs blocks.chain i) [
        | inl end ↦ inl (
          rw (
            e,
            segment_end-eq,
            le→leb (a.segment_base + a.segment_size) (b + a.size b) (omega (arith, end)),
          ),
          end,
        )
        | inr more ↦
            let m' = Chain-Member a.size _ _ (b + a.size b) bs blocks.chain more in
            inr (
              rw (
                e,
                segment_end-eq,
                gt→leb (a.segment_base + a.segment_size) (b + a.size b)
                    (omega (arith, m'.below, m'.large)),
              ),
              more,
            )
      ]

  -- also for the address behind the last block
  pub physical_previous-cases :
      (b : ℕ)
      → (has b bs ≡ true) ⊎ (b ≡ a.segment_base + a.segment_size)
      → ((physical_previous a b ≡ 0) × (a.first_block ≡ b))
        ⊎ ((r : ℕ) × (has r bs ≡ true) × (r + a.size r ≡ b) × (physical_previous a b ≡ r))
  unfolding physical_previous
  physical_previous-cases b i =
      elim (previous_loop-Chain a _ (omega (arith, blocks.small)) (max_blocks a + 1) b a.first_block
        0 bs blocks.chain i (omega (arith, length_lt_max a bs blocks))) [
          | inl (e, run) ↦ inl (run, e)
          | inr found ↦ inr found
        ]

  pub is_block_in_chain-has : (b : ℕ) → is_block_in_chain a b ≡ has b bs
  unfolding is_block_in_chain
  is_block_in_chain-has b =
      in_chain_loop-has a _ (omega (arith, blocks.small)) (max_blocks a + 1) b a.first_block bs
        blocks.chain segment_end-eq (omega (arith, length_lt_max a bs blocks))

  pub last_block-cases :
      ((a.first_block ≡ a.segment_base + a.segment_size) × (last_block a ≡ 0))
      ⊎ ((r : ℕ) × (has r bs ≡ true)
          × (r + a.size r ≡ a.segment_base + a.segment_size)
          × (last_block a ≡ r))
  unfolding last_block
  last_block-cases =
      last_loop-Chain a _ (omega (arith, blocks.small)) (max_blocks a + 1) a.first_block 0 bs
        blocks.chain segment_end-eq (omega (arith, length_lt_max a bs blocks))
