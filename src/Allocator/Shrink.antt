-- ===== src/Allocator/Shrink.antt =====
-- `shrink_to_fit`: a free block at the end of the segment is given up.
use shm_next.Base.{
  ℕ, ◌+◌, ◌-◌, ◌<◌, ◌≡◌, ◌≢◌, refl, true, false, List, arith, leb, ◌==◌, has, erase, length,
  Bool-cases, inl, inr, ◌∙◌, sym, ==→eq, eq→==, ◌+w◌, ◌-w◌, has-erase_ne, has-erase_self,
  has-of-erase, length-erase,
}
use shm_next.Allocator.{Allocator, ok, put_size, put_free, put_next, max_blocks}
use shm_next.Allocator.Chain.{Chain-Member, Chain-Distinct}
use shm_next.Allocator.Chain.Edit.{Chain-drop, Chain-only}
use shm_next.Allocator.Calls.{shrink_to_fit}
use shm_next.Allocator.FreeList.{insert_free_block}
use shm_next.Allocator.FreeList.Insert.{insert_by}
use shm_next.Allocator.FreeList.Links.{Links-frame, relink}
use shm_next.Allocator.FreeList.Order.{Sorted-Distinct, Sorted-congr, has-insert}
use shm_next.Allocator.Invariant.{
  ListedIn, IsValid, length-Listed, insert_free_block-few, remove_free_block-Listed,
}
use shm_next.Allocator.Neighbours.{last_block-cases}
use shm_next.Allocator.Resize.{Resized, unchanged}
use shm_next.Allocator.Walks.{last_block}

module _ (a : Allocator) (bs xs : List ℕ) (v : IsValid a bs xs) (t : ℕ) (i : has t bs ≡ true)
    (free : a.is_free t ≡ true) (meet : t + a.size t ≡ a.segment_base + a.segment_size) where
  -- the state without its last block
  abbrev dropped : ℕ → (ℕ → ℕ) → Allocator
  dropped h k = record (relink h k a) { segment_size = t - a.segment_base }

  dropped-IsValid :
      (h : ℕ) (k : ℕ → ℕ)
      → t ≢ a.first_block
      → ListedIn (relink h k a) bs (erase t xs)
      → IsValid (dropped h k) (erase t bs) (erase t xs)
  dropped-IsValid h k ne l =
      let member = Chain-Member a.size _ _ t bs v.blocks.chain i in
      let end : a.segment_base + (t - a.segment_base) ≡ t =
        omega (arith, member.above, v.blocks.first_ge) in
      let gone = has-erase_self t xs (Sorted-Distinct a.size xs v.listed.sorted) in
      let lost = has-erase_self t bs (Chain-Distinct a.size _ _ bs v.blocks.chain) in
      record {
        blocks = record {
          base_pos = v.blocks.base_pos;
          first_ge = v.blocks.first_ge;
          spaced = v.blocks.spaced;
          small = omega (arith, end, member.below, v.blocks.small);
          chain = rw end (Chain-drop a.size _ _ t bs v.blocks.chain i meet);
        };
        listed = record {
          links = l.links;
          sorted = l.sorted;
          within = λ q j. has-erase_ne t q bs (ground (arith, gone)) ∙ l.within q j;
        };
        exact = λ q j.
            let ne' : q ≢ t = ground (arith, lost) in
            has-erase_ne t q xs ne' ∙ v.exact q (has-of-erase t q bs j);
        first = has-erase_ne t a.first_block bs (λ e. ne (sym e)) ∙ v.first;
      }

  -- the state in which the only block keeps 48 bytes, and is not yet listed
  abbrev cut : ℕ → (ℕ → ℕ) → Allocator
  cut h k = put_next t 0 (put_free t true (put_size t 48 (relink h k a)))

  abbrev kept : ℕ → (ℕ → ℕ) → ℕ → (ℕ → ℕ) → Allocator
  kept h k h' k' = record (relink h' k' (cut h k)) { segment_size = t - a.segment_base + 48 }

  cut-IsValid :
      (h : ℕ) (k : ℕ → ℕ)
      → t ≡ a.first_block
      → 48 < a.size t
      → ListedIn (relink h k a) bs (erase t xs)
      → (h' : ℕ) × (k' : ℕ → ℕ) × (insert_free_block t (cut h k) ≡ ok tt (relink h' k' (cut h k)))
        × IsValid (kept h k h' k') bs (insert_by (cut h k).size t (erase t xs))
  cut-IsValid h k e large l =
      let member = Chain-Member a.size _ _ t bs v.blocks.chain i in
      let gone = has-erase_self t xs (Sorted-Distinct a.size xs v.listed.sorted) in
      let l' : ListedIn (cut h k) bs (erase t xs) = record {
        links = Links-frame k _ _ (erase t xs) l.links λ q j. ground (arith, gone);
        sorted =
            Sorted-congr a.size (cut h k).size (erase t xs) l.sorted λ q j. ground (arith, gone);
        within = l.within;
      } in
      let few : length (erase t xs) < max_blocks (cut h k) + 1 =
        omega (
          arith,
          length-Listed a bs xs v.blocks v.listed,
          length-erase t xs (v.exact t i ∙ free),
        ) in
      let pos : 0 < t = omega (arith, member.above, v.blocks.first_ge, v.blocks.base_pos) in
      let (h', k', run, li) = insert_free_block-few (cut h k) bs (erase t xs) few l' t pos i gone in
      let end : a.segment_base + (t - a.segment_base + 48) ≡ t + 48 =
        omega (arith, member.above, v.blocks.first_ge) in
      let c =
        Chain-only a.size t _ 48 bs (rw (sym e) at v.blocks.chain) i meet (omega arith) refl in
      (
        h',
        k',
        run,
        record {
          blocks = record {
            base_pos = v.blocks.base_pos;
            first_ge = v.blocks.first_ge;
            spaced = v.blocks.spaced;
            small = omega (arith, end, member.below, v.blocks.small);
            chain = rw (end, ← e) c;
          };
          listed = record { links = li.links; sorted = li.sorted; within = li.within };
          exact = λ q j. elim (Bool-cases (q == t)) [
            | inl hit ↦ ground (arith, has-insert (cut h k).size t q (erase t xs))
            | inr miss ↦
                ground (
                  arith,
                  has-insert (cut h k).size t q (erase t xs),
                  has-erase_ne t q xs,
                  v.exact q,
                )
          ];
          first = v.first;
        },
      )

  shrink-drop : last_block a ≡ t → t ≢ a.first_block → Resized a bs (shrink_to_fit a)
  unfolding shrink_to_fit
  shrink-drop e ne =
      let member = Chain-Member a.size _ _ t bs v.blocks.chain i in
      let z : (t == 0) ≡ false =
        ground (arith, member.above, v.blocks.base_pos, v.blocks.first_ge) in
      let other : (t == a.first_block) ≡ false = ground arith in
      let some_left : leb (a.size t) 0 ≡ false = ground (arith, member.large) in
      let w : (t -w a.segment_base) +w 0 ≡ t - a.segment_base =
        omega (arith, member.above, member.below, v.blocks.small, v.blocks.first_ge) in
      let (h, k, run, l) =
        remove_free_block-Listed a bs xs v.blocks v.listed t (v.exact t i ∙ free) in
      let valid = dropped-IsValid h k ne l in
      record {
        answer = t - a.segment_base;
        after = dropped h k;
        blocks = erase t bs;
        list = erase t xs;
        returns = rw (e, z, other, free, some_left, run, w) refl;
        valid = valid;
        stays = record {
          live = λ q j f. (has-erase_ne t q bs (ground arith) ∙ j, refl, f);
          headers = refl;
          requests = refl;
        };
      }

  shrink-cut : last_block a ≡ t → t ≡ a.first_block → Resized a bs (shrink_to_fit a)
  unfolding shrink_to_fit
  shrink-cut e same =
      let member = Chain-Member a.size _ _ t bs v.blocks.chain i in
      let z : (t == 0) ≡ false =
        ground (arith, member.above, v.blocks.base_pos, v.blocks.first_ge) in
      let only : (t == a.first_block) ≡ true = eq→== t a.first_block same in
      elim (Bool-cases (leb (a.size t) 48)) [
        | inl tight ↦
            unchanged a bs xs a.segment_size (shrink_to_fit a) v (rw (e, z, only, free, tight) refl)
        | inr large ↦
            let (h, k, run, l) =
              remove_free_block-Listed a bs xs v.blocks v.listed t (v.exact t i ∙ free) in
            let (h', k', run', valid) = cut-IsValid h k same (ground arith) l in
            let w : (t -w a.segment_base) +w 48 ≡ t - a.segment_base + 48 =
              omega (arith, member.above, member.below, v.blocks.small, v.blocks.first_ge) in
            record {
              answer = t - a.segment_base + 48;
              after = kept h k h' k';
              blocks = bs;
              list = insert_by (cut h k).size t (erase t xs);
              returns = rw (e, z, only, free, large, run, run', w) refl;
              valid = valid;
              stays = record {
                live = λ q j f. (j, ground arith, ground arith);
                headers = refl;
                requests = refl;
              };
            }
      ]

-- `shrink_to_fit` in a valid state returns: the state is valid, and the blocks in use stay, with their
-- sizes and headers.
pub shrink_to_fit-Resized :
    (a : Allocator) (bs xs : List ℕ) → IsValid a bs xs → Resized a bs (shrink_to_fit a)
unfolding shrink_to_fit
shrink_to_fit-Resized a bs xs v = elim (last_block-cases a bs v.blocks) [
  | inl (e, run) ↦ unchanged a bs xs a.segment_size (shrink_to_fit a) v (rw run refl)
  | inr (t, i, meet, run) ↦ elim (Bool-cases (a.is_free t)) [
    | inr used ↦
        unchanged a bs xs a.segment_size (shrink_to_fit a) v (rw (run, used) (ground arith))
    | inl free ↦ elim (Bool-cases (t == a.first_block)) [
      | inl same ↦ shrink-cut a bs xs v t i free meet run (==→eq t a.first_block same)
      | inr other ↦ shrink-drop a bs xs v t i free meet run (ground arith)
    ]
  ]
]
