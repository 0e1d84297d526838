-- ===== src/Allocator/Sanity.antt =====
-- The checks and sums over a valid allocator: `check_sanity`, `get_free_memory`.
use shm_next.Base.{
  ℕ, zero, suc, ◌+◌, ◌%◌, ◌<◌, ◌≡◌, refl, Bool, true, false, List, [], ◌∷◌, arith, ◌==◌, has,
  length, eq→==, ◌∙◌, sym, word,
}
use shm_next.Allocator.{Allocator, segment_end, max_blocks}
use shm_next.Allocator.Chain.{Chain, Chain-Member, Chain-le}
use shm_next.Allocator.FreeList.Links.{Links}
use shm_next.Allocator.Invariant.{IsValid, length-Listed, length_lt_max}
use shm_next.Allocator.Neighbours.{segment_end-eq, is_block_in_chain-has}
use shm_next.Allocator.Walks.{
  same, is_address_in_segment, is_aligned_address, in_free_loop, is_in_free_list, free_list_loop,
  is_valid_free_list, is_block_in_chain, sanity_loop, check_sanity,
}
use shm_next.Allocator.Walks.Along.{passes}

module _ (a : Allocator) where
  in_free_loop-has :
      (visits target curr : ℕ) (xs : List ℕ)
      → Links a.next_free curr xs
      → length xs < visits
      → in_free_loop visits a target curr ≡ has target xs
  unfolding in_free_loop
  in_free_loop-has zero target curr xs l f = absurd (omega arith)
  in_free_loop-has (suc visits) target curr [] l f = rw (eq→== curr 0 l)
  in_free_loop-has (suc visits) target curr (x ∷ xs) (e, pos, l) f =
      rw e (ground (arith, in_free_loop-has visits target (a.next_free x) xs l))

  free_list_loop-true :
      (visits curr : ℕ) (xs : List ℕ)
      → Links a.next_free curr xs
      → length xs < visits
      → ((q : ℕ)
          → has q xs ≡ true
          → (is_address_in_segment a q ≡ true)
            × (is_aligned_address q ≡ true)
            × (a.is_free q ≡ true)
            × (is_block_in_chain a q ≡ true))
      → free_list_loop visits a curr ≡ true
  unfolding free_list_loop
  free_list_loop-true zero curr xs l f good = absurd (omega arith)
  free_list_loop-true (suc visits) curr [] l f good = rw (eq→== curr 0 l)
  free_list_loop-true (suc visits) curr (x ∷ xs) (e, pos, l) f good =
      let (g₁, g₂, g₃, g₄) = good x (ground arith) in
      let z : (x == 0) ≡ false = ground arith in
      let rest =
        free_list_loop-true visits (a.next_free x) xs l (omega arith)
          λ q i. good q (ground arith) in
      rw e (rw (z, g₁, g₂, g₃, g₄) rest)

  same_refl : (b : Bool) → same b b ≡ true
  same_refl true = refl
  same_refl false = refl

  sanity_loop-true :
      (visits current e : ℕ) (bs : List ℕ)
      → Chain a.size current e bs
      → segment_end a ≡ e
      → e < word
      → current % 16 ≡ 0
      → length bs < visits
      → ((q : ℕ) → has q bs ≡ true → is_in_free_list a q ≡ a.is_free q)
      → sanity_loop visits a current ≡ true
  unfolding sanity_loop
  sanity_loop-true zero current e bs c end small al f good = absurd (omega arith)
  sanity_loop-true (suc visits) current e [] c end small al f good = rw end (ground arith)
  sanity_loop-true (suc visits) current e (x ∷ bs) (h, l, m, c) end small al f good =
      let le = Chain-le a.size (x + a.size x) e bs c in
      let p = passes a x e l m (omega arith) small in
      let g = good x (ground arith) in
      let al' : (x % 16 == 0) ≡ true = eq→== (x % 16) 0 (omega arith) in
      let rest =
        sanity_loop-true visits (x + a.size x) e bs c end small (omega arith) (omega arith)
          λ q i. good q (ground arith) in
      rw h (
        rw (end, p.before, al', p.sized, p.sum, p.ahead, p.inside, g, same_refl (a.is_free x)) rest)

module _ (a : Allocator) (bs xs : List ℕ) (v : IsValid a bs xs) where
  pub is_in_free_list-has : (q : ℕ) → is_in_free_list a q ≡ has q xs
  unfolding is_in_free_list
  is_in_free_list-has q =
      in_free_loop-has a (max_blocks a + 1) q a.free_list_head xs v.listed.links
        (length-Listed a bs xs v.blocks v.listed)

  is_valid_free_list-true : is_valid_free_list a ≡ true
  unfolding is_valid_free_list
  is_valid_free_list-true =
      free_list_loop-true a (max_blocks a + 1) a.free_list_head xs v.listed.links
        (length-Listed a bs xs v.blocks v.listed)
        λ q i.
          let j = v.listed.within q i in
          let m = Chain-Member a.size _ _ q bs v.blocks.chain j in
          (
            rw (segment_end-eq a bs v.blocks)
                (ground (arith, m.above, m.below, m.large, v.blocks.first_ge)),
            eq→== (q % 16) 0 (omega (arith, m.spaced, v.blocks.spaced)),
            sym (v.exact q j) ∙ i,
            is_block_in_chain-has a bs v.blocks q ∙ j,
          )

  -- `check_sanity` is true in every valid state.
  pub check_sanity-true : check_sanity a ≡ true
  unfolding check_sanity
  check_sanity-true =
      let m = Chain-Member a.size _ _ a.first_block bs v.blocks.chain v.first in
      let z₁ : (a.segment_base == 0) ≡ false = ground (arith, v.blocks.base_pos) in
      let z₂ : (a.segment_size == 0) ≡ false =
        ground (arith, m.below, m.large, v.blocks.first_ge) in
      let z₃ : (a.first_block == 0) ≡ false =
        ground (arith, v.blocks.base_pos, v.blocks.first_ge) in
      rw (z₁, z₂, z₃, is_valid_free_list-true)
        (sanity_loop-true a (max_blocks a + 1) a.first_block _ bs v.blocks.chain
          (segment_end-eq a bs v.blocks) (omega (arith, v.blocks.small)) v.blocks.spaced
          (omega (arith, length_lt_max a bs v.blocks)) λ q i. is_in_free_list-has q ∙ v.exact q i)
