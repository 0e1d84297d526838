-- ===== src/Allocator/Combine.antt =====
-- `try_expand`: a block in use takes in the free block behind it, and gives up what it does not need.
use shm_next.Base.{
  ℕ, ◌+◌, ◌-◌, ◌%◌, ◌≤◌, ◌<◌, ◌≡◌, ◌≢◌, refl, true, false, List, arith, ltb, ◌==◌, has, erase,
  Bool-cases, inl, inr, ◌∙◌, ==→eq, update, ◌+w◌, ◌-w◌, has-erase_ne, has-erase_self,
}
use shm_next.Allocator.{Allocator, ok, put_size}
use shm_next.Allocator.Count
use shm_next.Allocator.Chain.{Chain-Member}
use shm_next.Allocator.Calls.{expand_into_next}
use shm_next.Allocator.FreeList.{remove_free_block, split_allocated_block}
use shm_next.Allocator.FreeList.Links.{relink}
use shm_next.Allocator.FreeList.Order.{Sorted-Distinct}
use shm_next.Allocator.Invariant.{IsValid, remove_free_block-Listed}
use shm_next.Allocator.Loose.{Loose, joined-Loose}
use shm_next.Allocator.Split.{IsSplit, split_allocated_block-IsSplit}
use shm_next.Allocator.Walks.{physical_next}
use shm_next.Allocator.Enlarge.{Ready}

expand_run :
    (a a₁ a₂ : Allocator) (p size b n u : ℕ)
    → physical_next a b ≡ n
    → 0 < n
    → a.is_free n ≡ true
    → ltb (a.size b +w a.size n) u ≡ false
    → remove_free_block n a ≡ ok tt a₁
    → split_allocated_block b u (put_size b (a.size b +w a.size n) a₁) ≡ ok tt a₂
    → p -w 16 ≡ p - 16
    → expand_into_next p size b u a
      ≡ ok true (
          Count.expand_success
            (record a₂ { requested_size = update a₂.requested_size (p - 16) size }))
unfolding expand_into_next
expand_run a a₁ a₂ p size b n u e pos free enough run cut w =
    let z : (n == 0) ≡ false = ground arith in rw (e, z, free, enough, run, cut, w) refl

module _ (a : Allocator) (bs xs : List ℕ) (b : ℕ) (v : IsValid a bs xs) (i : has b bs ≡ true)
    (used : a.is_free b ≡ false) (n : ℕ) (meet : b + a.size b ≡ n) (more : has n bs ≡ true)
    (free : a.is_free n ≡ true) where
  -- the state in which `b` has taken the next block in
  abbrev combined : ℕ → (ℕ → ℕ) → Allocator
  combined h k = put_size b (a.size b +w a.size n) (relink h k a)

  combined-Loose :
      (h : ℕ) × (k : ℕ → ℕ) × (remove_free_block n a ≡ ok tt (relink h k a))
      × Loose (combined h k) b (erase n bs) (erase n xs)
  combined-Loose =
      let m = Chain-Member a.size _ _ b bs v.blocks.chain i in
      let ne : b ≢ n = omega (arith, m.large) in
      let (h, k, run, li) =
        remove_free_block-Listed a bs xs v.blocks v.listed n (v.exact n more ∙ free) in
      let gone = has-erase_self n xs (Sorted-Distinct a.size xs v.listed.sorted) in
      let j =
        joined-Loose (relink h k a) b n bs (erase n xs) v.blocks li i more
          (has-erase_ne n b xs ne ∙ v.exact b i ∙ used) gone meet
          (λ q s nb nn. has-erase_ne n q xs nn ∙ v.exact q s) v.first in
      (
        h,
        k,
        run,
        record {
          blocks = record {
            base_pos = j.blocks.base_pos;
            first_ge = j.blocks.first_ge;
            spaced = j.blocks.spaced;
            small = j.blocks.small;
            chain = j.blocks.chain;
          };
          listed = record {
            links = j.listed.links;
            sorted = j.listed.sorted;
            within = j.listed.within;
          };
          present = j.present;
          unlisted = j.unlisted;
          exact = j.exact;
          first = j.first;
        },
      )

  pub combined_size : a.size b +w a.size n ≡ a.size b + a.size n
  combined_size =
      omega (arith, Chain-Member a.size _ _ n bs v.blocks.chain more, meet, v.blocks.small)

  combined-Ready :
      (u h : ℕ) (k : ℕ → ℕ) (a' : Allocator) (bs' xs' : List ℕ)
      → Loose (combined h k) b (erase n bs) (erase n xs)
      → IsSplit (combined h k) b u (erase n bs) (erase n xs) a' bs' xs'
      → Ready a bs b a' bs' xs'
  combined-Ready u h k a' bs' xs' l is =
      let flag : a'.is_free b ≡ false = is.flag ∙ used in
      record {
        valid = record {
          blocks = is.blocks;
          listed = is.listed;
          exact = λ q j. elim (Bool-cases (q == b)) [
            | inl hit ↦ ground (arith, is.unlisted, flag, ==→eq q b hit)
            | inr miss ↦ is.exact l.exact q j (ground arith)
          ];
          first = rw is.keeps.first (is.still a.first_block l.first);
        };
        present = is.still b l.present;
        used = flag;
        live = λ q j ne f.
            let other : q ≢ n = ground (arith, free) in
            let j' = has-erase_ne n q bs other ∙ j in
            let (s, g) = is.others q j' ne in (is.still q j', ground (arith, s), g ∙ f);
        headers = is.keeps.headers;
        requests = is.keeps.requests;
      }

  -- the part of `try_expand` behind its tests
  pub expand_into_next-Ready :
      (p size u : ℕ)
      → physical_next a b ≡ n
      → 0 < n
      → 32 ≤ u
      → u % 16 ≡ 0
      → u ≤ a.size b + a.size n
      → p -w 16 ≡ p - 16
      → (a' : Allocator) × (bs' : List ℕ) × (xs' : List ℕ) × (expand_into_next p size b u a
          ≡ ok true (
              Count.expand_success
                (record a' { requested_size = update a'.requested_size (p - 16) size })))
        × Ready a bs b a' bs' xs'
        × (u ≤ a'.size b)
  unfolding expand_into_next
  expand_into_next-Ready p size u e pos lo m hi w =
      let (h, k, run, l) = combined-Loose in
      let here : (combined h k).size b ≡ a.size b + a.size n = ground (arith, combined_size) in
      let (a', bs', xs', cut, is) =
        split_allocated_block-IsSplit (combined h k) b u (erase n bs) (erase n xs) l.blocks l.listed
          l.present l.unlisted lo m (rw here hi) in
      let enough : ltb (a.size b +w a.size n) u ≡ false = ground (arith, combined_size) in
      (
        a',
        bs',
        xs',
        expand_run a (relink h k a) a' p size b n u e pos free enough run cut w,
        combined-Ready u h k a' bs' xs' l is,
        is.room.0,
      )
