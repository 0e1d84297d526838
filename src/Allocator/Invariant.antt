-- ===== src/Allocator/Invariant.antt =====
-- The invariant of the block allocator, and how the steps on the free list keep its parts.
use shm_next.Base.{
  ℕ, ◌+◌, ◌%◌, ◌^◌, ◌≤◌, ◌<◌, ◌≡◌, refl, true, false, List, arith, has, erase, length,
  length-le_of_has, has-of-erase,
}
use shm_next.Allocator.{Allocator, ok, max_blocks}
use shm_next.Allocator.Chain.{Chain, Chain-Member, Chain-le}
use shm_next.Allocator.FreeList.{insert_free_block, remove_free_block}
use shm_next.Allocator.FreeList.Links.{Links, Links-has_null, relink}
use shm_next.Allocator.FreeList.Insert.{insert_by, insert_loop-Inserted}
use shm_next.Allocator.FreeList.Remove.{remove_loop-Removed}
use shm_next.Allocator.FreeList.Order.{
  Sorted, Sorted-Distinct, has-insert, insert-Sorted, erase-Sorted,
}

-- The blocks `bs` cover the segment from `first` to its end. Addresses stay below 2 ^ 63.
pub record Blocks (base total first : ℕ) (size : ℕ → ℕ) (bs : List ℕ) : Type 0 where
  pub base_pos : 0 < base
  pub first_ge : base ≤ first
  pub spaced : first % 16 ≡ 0
  pub small : base + total < 2 ^ 63
  pub chain : Chain size first (base + total) bs

-- The free list is `xs`: blocks of the chain, in order.
pub record Listed (next : ℕ → ℕ) (head : ℕ) (size : ℕ → ℕ) (bs xs : List ℕ) : Type 0 where
  pub links : Links next head xs
  pub sorted : Sorted size xs
  pub within : (q : ℕ) → has q xs ≡ true → has q bs ≡ true

abbrev pub BlocksOf : Allocator → List ℕ → Type 0
BlocksOf a bs = Blocks a.segment_base a.segment_size a.first_block a.size bs

abbrev pub ListedIn : Allocator → (bs xs : List ℕ) → Type 0
ListedIn a bs xs = Listed a.next_free a.free_list_head a.size bs xs

-- The invariant between calls: also, the list holds exactly the free blocks, and there is a block.
pub record IsValid (a : Allocator) (bs xs : List ℕ) : Type 0 where
  pub blocks : BlocksOf a bs
  pub listed : ListedIn a bs xs
  pub exact : (q : ℕ) → has q bs ≡ true → has q xs ≡ a.is_free q
  pub first : has a.first_block bs ≡ true

-- The blocks are so few that the bound on the visits is never reached.
pub length_lt_max : (a : Allocator) (bs : List ℕ) → BlocksOf a bs → length bs < max_blocks a
length_lt_max a bs b = omega (arith, Chain-le a.size a.first_block _ bs b.chain, b.first_ge)

-- The calls on the free list need no more than that the list is shorter than the bound.
module _ (a : Allocator) (bs xs : List ℕ) (few : length xs < max_blocks a + 1)
    (l : ListedIn a bs xs) where
  pub insert_free_block-few :
      (b : ℕ)
      → 0 < b
      → has b bs ≡ true
      → has b xs ≡ false
      → (h : ℕ) × (n : ℕ → ℕ) × (insert_free_block b a ≡ ok tt (relink h n a))
        × ListedIn (relink h n a) bs (insert_by a.size b xs)
  unfolding insert_free_block
  insert_free_block-few b pos i out =
      let (h, n, run, ins) =
        insert_loop-Inserted a b pos (max_blocks a + 1) 0 a.free_list_head xs l.links refl
          (Sorted-Distinct a.size xs l.sorted) few out
          (Links-has_null a.next_free a.free_list_head xs l.links) (omega arith) in
      (
        h,
        n,
        run,
        record {
          links = ins.links;
          sorted = insert-Sorted a.size b xs l.sorted out;
          within = λ q j. ground (arith, has-insert a.size b q xs, l.within q);
        },
      )

  pub remove_free_block-few :
      (b : ℕ)
      → has b xs ≡ true
      → (h : ℕ) × (n : ℕ → ℕ) × (remove_free_block b a ≡ ok tt (relink h n a))
        × ListedIn (relink h n a) bs (erase b xs)
  unfolding remove_free_block
  remove_free_block-few b i =
      let d = Sorted-Distinct a.size xs l.sorted in
      let (h, n, run, r) =
        remove_loop-Removed a b (max_blocks a + 1) 0 a.free_list_head xs l.links refl d few
          (Links-has_null a.next_free a.free_list_head xs l.links) i in
      (
        h,
        n,
        run,
        record {
          links = r.links;
          sorted = erase-Sorted a.size b xs l.sorted;
          within = λ q j. l.within q (has-of-erase b q xs j);
        },
      )

module _ (a : Allocator) (bs xs : List ℕ) (blocks : BlocksOf a bs) (l : ListedIn a bs xs) where
  pub length-Listed : length xs < max_blocks a + 1
  length-Listed =
      let le = length-le_of_has xs bs (Sorted-Distinct a.size xs l.sorted) l.within in
      omega (arith, length_lt_max a bs blocks)

  -- `insert_free_block` of a block of the chain that is not listed returns, and the free list is then
  -- the old one with the block at its place in the order.
  pub insert_free_block-Listed :
      (b : ℕ)
      → has b bs ≡ true
      → has b xs ≡ false
      → (h : ℕ) × (n : ℕ → ℕ) × (insert_free_block b a ≡ ok tt (relink h n a))
        × ListedIn (relink h n a) bs (insert_by a.size b xs)
  insert_free_block-Listed b i out =
      let m = Chain-Member a.size _ _ b bs blocks.chain i in
      insert_free_block-few a bs xs length-Listed l b
        (omega (arith, m.above, blocks.first_ge, blocks.base_pos)) i out

  -- `remove_free_block` of a listed block returns, and the free list is then the old one less that block.
  pub remove_free_block-Listed :
      (b : ℕ)
      → has b xs ≡ true
      → (h : ℕ) × (n : ℕ → ℕ) × (remove_free_block b a ≡ ok tt (relink h n a))
        × ListedIn (relink h n a) bs (erase b xs)
  remove_free_block-Listed b i = remove_free_block-few a bs xs length-Listed l b i
