-- ===== src/Allocator/Room.antt =====
-- `grow`: the room behind the last block becomes a part of it, or a block of its own.
use shm_next.Base.{
  ℕ, ◌+◌, ◌-◌, ◌%◌, ◌^◌, ◌≤◌, ◌<◌, ◌≡◌, true, false, List, [], ◌∷◌, ◌++◌, arith, ◌==◌, has, erase,
  length, Bool-cases, inl, inr, ◌∙◌, ==→eq, has-erase_ne, has-erase_self, has-append,
}
use shm_next.Allocator.{Allocator, ok, put_size, put_free, put_next, max_blocks}
use shm_next.Allocator.Chain.{Chain-Member}
use shm_next.Allocator.Chain.Edit.{Chain-append, Chain-extend}
use shm_next.Allocator.FreeList.{insert_free_block, remove_free_block}
use shm_next.Allocator.FreeList.Insert.{insert_by}
use shm_next.Allocator.FreeList.Links.{Links-frame, relink}
use shm_next.Allocator.FreeList.Order.{Sorted-Distinct, Sorted-congr, has-insert}
use shm_next.Allocator.Invariant.{
  BlocksOf, ListedIn, IsValid, length-Listed, insert_free_block-Listed, remove_free_block-few,
}

module _ (a : Allocator) (bs xs : List ℕ) (v : IsValid a bs xs) (n : ℕ)
    (longer : a.segment_size < n) (small : a.segment_base + n < 2 ^ 63) where
  abbrev pub longer_by : ℕ
  longer_by = n - a.segment_size

  abbrev pub stretched : Allocator
  stretched = record a { segment_size = n }

  -- the state in which the last block, off the list, has taken the new room in
  abbrev pub widened : ℕ → ℕ → (ℕ → ℕ) → Allocator
  widened t h k = put_size t (a.size t + longer_by) (relink h k stretched)

  widened-Blocks :
      (t h : ℕ) (k : ℕ → ℕ)
      → has t bs ≡ true
      → t + a.size t ≡ a.segment_base + a.segment_size
      → longer_by % 16 ≡ 0
      → BlocksOf (widened t h k) bs
  widened-Blocks t h k i end m = record {
    base_pos = v.blocks.base_pos;
    first_ge = v.blocks.first_ge;
    spaced = v.blocks.spaced;
    small = small;
    chain =
        let e : a.segment_base + a.segment_size + longer_by ≡ a.segment_base + n = omega arith in
        rw e at (Chain-extend a.size _ _ t longer_by bs v.blocks.chain i end m);
  }

  pub grow_tail :
      (t : ℕ)
      → has t bs ≡ true
      → a.is_free t ≡ true
      → t + a.size t ≡ a.segment_base + a.segment_size
      → longer_by % 16 ≡ 0
      → (h : ℕ) × (k : ℕ → ℕ) × (h' : ℕ) × (k' : ℕ → ℕ) × (remove_free_block t stretched
          ≡ ok tt (relink h k stretched))
        × (insert_free_block t (widened t h k) ≡ ok tt (relink h' k' (widened t h k)))
        × IsValid (relink h' k' (widened t h k)) bs (insert_by (widened t h k).size t (erase t xs))
  grow_tail t i free end m =
      let few : length xs < max_blocks stretched + 1 =
        omega (arith, length-Listed a bs xs v.blocks v.listed) in
      let l : ListedIn stretched bs xs = record {
        links = v.listed.links;
        sorted = v.listed.sorted;
        within = v.listed.within;
      } in
      let gone = has-erase_self t xs (Sorted-Distinct a.size xs v.listed.sorted) in
      let (h, k, run, l₁) = remove_free_block-few stretched bs xs few l t (v.exact t i ∙ free) in
      let l₂ : ListedIn (widened t h k) bs (erase t xs) = record {
        links = l₁.links;
        sorted =
            Sorted-congr a.size (widened t h k).size (erase t xs) l₁.sorted λ q j. ground arith;
        within = l₁.within;
      } in
      let b = widened-Blocks t h k i end m in
      let (h', k', run', l₃) =
        insert_free_block-Listed (widened t h k) bs (erase t xs) b l₂ t i gone in
      (
        h,
        k,
        h',
        k',
        run,
        run',
        record {
          blocks = record {
            base_pos = b.base_pos;
            first_ge = b.first_ge;
            spaced = b.spaced;
            small = b.small;
            chain = b.chain;
          };
          listed = l₃;
          exact = λ q j. elim (Bool-cases (q == t)) [
            | inl hit ↦
                ground (arith, has-insert (widened t h k).size t q (erase t xs), ==→eq q t hit)
            | inr miss ↦ ground (
              arith,
              has-insert (widened t h k).size t q (erase t xs),
              has-erase_ne t q xs,
              v.exact q,
            )
          ];
          first = v.first;
        },
      )

  abbrev pub end : ℕ
  end = a.segment_base + a.segment_size

  -- the state with a new free block behind the old end, not yet listed
  abbrev pub appended : Allocator
  appended = put_next end 0 (put_free end true (put_size end longer_by stretched))

  pub out : has end bs ≡ false
  out = elim (Bool-cases (has end bs)) [
    | inr missing ↦ missing
    | inl i ↦
        let m = Chain-Member a.size _ _ end bs v.blocks.chain i in
        absurd (omega (arith, m.below, m.large))
  ]

  pub grow_append :
      longer_by % 16 ≡ 0
      → 48 ≤ longer_by
      → (h : ℕ) × (k : ℕ → ℕ) × (insert_free_block end appended ≡ ok tt (relink h k appended))
        × IsValid (relink h k appended) (bs ++ end ∷ []) (insert_by appended.size end xs)
  grow_append m room =
      let c = Chain-append a.size _ end longer_by bs v.blocks.chain (omega arith) m in
      let e : end + longer_by ≡ a.segment_base + n = omega arith in
      let b : BlocksOf appended (bs ++ end ∷ []) = record {
        base_pos = v.blocks.base_pos;
        first_ge = v.blocks.first_ge;
        spaced = v.blocks.spaced;
        small = small;
        chain = rw e at c;
      } in
      let unlisted : has end xs ≡ false = ground (arith, v.listed.within end, out) in
      let l : ListedIn appended (bs ++ end ∷ []) xs = record {
        links = Links-frame a.next_free _ _ xs v.listed.links λ q j. ground (arith, unlisted);
        sorted =
            Sorted-congr a.size appended.size xs v.listed.sorted λ q j. ground (arith, unlisted);
        within = λ q j. ground (arith, has-append q bs (end ∷ []), v.listed.within q);
      } in
      let i : has end (bs ++ end ∷ []) ≡ true = ground (arith, has-append end bs (end ∷ [])) in
      let (h, k, run, l') =
        insert_free_block-Listed appended (bs ++ end ∷ []) xs b l end i unlisted in
      (
        h,
        k,
        run,
        record {
          blocks = record {
            base_pos = b.base_pos;
            first_ge = b.first_ge;
            spaced = b.spaced;
            small = b.small;
            chain = b.chain;
          };
          listed = l';
          exact = λ q j. elim (Bool-cases (q == end)) [
            | inl hit ↦ ground (arith, has-insert appended.size end q xs)
            | inr miss ↦
                ground
                  (arith, has-insert appended.size end q xs, has-append q bs (end ∷ []), v.exact q)
          ];
          first = ground (arith, has-append a.first_block bs (end ∷ []), v.first);
        },
      )
