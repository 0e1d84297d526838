-- ===== src/Allocator/Merge.antt =====
-- `deallocate_block`: a block is joined with its free neighbours.
use shm_next.Base.{
  ℕ, ◌+◌, ◌≡◌, ◌≢◌, refl, true, List, arith, has, erase, Bool-cases, inl, inr, ◌∙◌, sym,
  has-erase_ne, has-erase_self,
}
use shm_next.Allocator.{Allocator, ok}
use shm_next.Allocator.Chain.{Chain-Member}
use shm_next.Allocator.Calls.{merge_next, merge_previous}
use shm_next.Allocator.FreeList.Links.{relink}
use shm_next.Allocator.FreeList.Order.{Sorted-Distinct}
use shm_next.Allocator.Invariant.{remove_free_block-Listed}
use shm_next.Allocator.Neighbours.{physical_next-cases, physical_previous-cases}
use shm_next.Allocator.Walks.{physical_next, physical_previous}
use shm_next.Allocator.Loose.{
  Loose, Grows, joined, joined-Loose, absorb_run, merge_next_run, merge_previous_run, Grows-refl,
}

module _ (a : Allocator) (b : ℕ) (bs xs : List ℕ) (s : Loose a b bs xs) where
  merge_next-taken :
      (n : ℕ)
      → b + a.size b ≡ n
      → physical_next a b ≡ n
      → has n bs ≡ true
      → a.is_free n ≡ true
      → (a' : Allocator) × (bs' : List ℕ) × (xs' : List ℕ) × (merge_next b a ≡ ok tt a')
        × Loose a' b bs' xs'
        × Grows a b bs a' b bs'
  merge_next-taken n meet e more free =
      let m = Chain-Member a.size _ _ b bs s.blocks.chain s.present in
      let m' = Chain-Member a.size _ _ n bs s.blocks.chain more in
      let ne : b ≢ n = omega (arith, m.large) in
      let i : has n xs ≡ true = s.exact n more (λ z. ne (sym z)) ∙ free in
      let (h, k, run, li) = remove_free_block-Listed a bs xs s.blocks s.listed n i in
      let gone = has-erase_self n xs (Sorted-Distinct a.size xs s.listed.sorted) in
      (
        joined b n (relink h k a),
        erase n bs,
        erase n xs,
        merge_next_run a _ b n e (ground arith) free (absorb_run a (relink h k a) n b n run),
        joined-Loose (relink h k a) b n bs (erase n xs) s.blocks li s.present more
            (has-erase_ne n b xs ne ∙ s.unlisted) gone meet
            (λ q j nb nn. has-erase_ne n q xs nn ∙ s.exact q j nb) s.first,
        record {
          keeps = record {
            base = refl;
            total = refl;
            first = refl;
            headers = refl;
            requests = refl;
          };
          from = omega arith;
          to = ground (arith, m.below, m'.below, s.blocks.small);
          live = λ q j nb f. (has-erase_ne n q bs (ground arith) ∙ j, nb, ground arith, f);
        },
      )

  pub merge_next-Loose :
      (a' : Allocator) × (bs' : List ℕ) × (xs' : List ℕ) × (merge_next b a ≡ ok tt a')
      × Loose a' b bs' xs'
      × Grows a b bs a' b bs'
  merge_next-Loose = elim (physical_next-cases a bs s.blocks b s.present) [
    | inl (e, end) ↦ (a, bs, xs, unfold merge_next in rw e, s, Grows-refl a b bs)
    | inr (e, more) ↦ elim (Bool-cases (a.is_free (b + a.size b))) [
      | inl free ↦ merge_next-taken (b + a.size b) refl e more free
      | inr used ↦ (a, bs, xs, unfold merge_next in ground (arith, e, used), s, Grows-refl a b bs)
    ]
  ]

  merge_previous-taken :
      (r : ℕ)
      → r + a.size r ≡ b
      → physical_previous a b ≡ r
      → has r bs ≡ true
      → a.is_free r ≡ true
      → (b' : ℕ) × (a' : Allocator) × (bs' : List ℕ) × (xs' : List ℕ) × (merge_previous b a
          ≡ ok b' a')
        × Loose a' b' bs' xs'
        × Grows a b bs a' b' bs'
  merge_previous-taken r meet e j free =
      let m = Chain-Member a.size _ _ b bs s.blocks.chain s.present in
      let m' = Chain-Member a.size _ _ r bs s.blocks.chain j in
      let ne : b ≢ r = omega (arith, m'.large) in
      let i : has r xs ≡ true = s.exact r j (λ z. ne (sym z)) ∙ free in
      let (h, k, run, li) = remove_free_block-Listed a bs xs s.blocks s.listed r i in
      let gone = has-erase_self r xs (Sorted-Distinct a.size xs s.listed.sorted) in
      (
        r,
        joined r b (relink h k a),
        erase b bs,
        erase r xs,
        merge_previous_run a _ b r e
            (ground (arith, m'.above, s.blocks.first_ge, s.blocks.base_pos)) free
            (absorb_run a (relink h k a) r r b run),
        joined-Loose (relink h k a) r b bs (erase r xs) s.blocks li j s.present gone
            (has-erase_ne r b xs ne ∙ s.unlisted) meet
            (λ q j nr nb. has-erase_ne r q xs nr ∙ s.exact q j nb) s.first,
        record {
          keeps = record {
            base = refl;
            total = refl;
            first = refl;
            headers = refl;
            requests = refl;
          };
          from = omega arith;
          to = ground (arith, m.below, m'.below, s.blocks.small);
          live = λ q j nb f. (has-erase_ne b q bs nb ∙ j, ground arith, ground arith, f);
        },
      )

  pub merge_previous-Loose :
      (b' : ℕ) × (a' : Allocator) × (bs' : List ℕ) × (xs' : List ℕ) × (merge_previous b a
        ≡ ok b' a')
      × Loose a' b' bs' xs'
      × Grows a b bs a' b' bs'
  merge_previous-Loose = elim (physical_previous-cases a bs s.blocks b (inl s.present)) [
    | inl (e, start) ↦ (b, a, bs, xs, unfold merge_previous in rw e, s, Grows-refl a b bs)
    | inr (r, j, meet, e) ↦ elim (Bool-cases (a.is_free r)) [
      | inl free ↦ merge_previous-taken r meet e j free
      | inr used ↦
          (b, a, bs, xs, unfold merge_previous in ground (arith, e, used), s, Grows-refl a b bs)
    ]
  ]

pub Grows-trans :
    {a a' a'' : Allocator} {b b' b'' : ℕ} {bs bs' bs'' : List ℕ}
    → Grows a b bs a' b' bs'
    → Grows a' b' bs' a'' b'' bs''
    → Grows a b bs a'' b'' bs''
Grows-trans g g' = record {
  keeps = record {
    base = g'.keeps.base ∙ g.keeps.base;
    total = g'.keeps.total ∙ g.keeps.total;
    first = g'.keeps.first ∙ g.keeps.first;
    headers = g'.keeps.headers ∙ g.keeps.headers;
    requests = g'.keeps.requests ∙ g.keeps.requests;
  };
  from = omega (arith, g.from, g'.from);
  to = omega (arith, g.to, g'.to);
  live = λ q i ne f.
      let (i', ne', s', f') = g.live q i ne f in
      let (i'', ne'', s'', f'') = g'.live q i' ne' f' in (i'', ne'', s'' ∙ s', f'');
}
