-- ===== src/Allocator/Split.antt =====
-- `split_allocated_block` cuts the rest off a block that is not listed, and lists the rest.
use shm_next.Base.{
  ℕ, ◌+◌, ◌-◌, ◌%◌, ◌≤◌, ◌<◌, ◌≡◌, ◌≢◌, refl, true, false, List, arith, ltb, tests, has, Bool-cases,
  inl, inr, ◌+w◌, ◌-w◌,
}
use shm_next.Allocator.{Allocator, ok}
use shm_next.Allocator.Chain.{Chain-Member, Chain-apart}
use shm_next.Allocator.Chain.Edit.{insert_after, has-insert_after, Chain-split}
use shm_next.Allocator.FreeList.{carve, split_allocated_block}
use shm_next.Allocator.FreeList.Links.{Links-frame, relink}
use shm_next.Allocator.FreeList.Insert.{insert_by}
use shm_next.Allocator.FreeList.Order.{Sorted-congr, has-insert}
use shm_next.Allocator.Invariant.{BlocksOf, ListedIn, insert_free_block-Listed}

-- What a call that works on block `b` leaves alone.
pub record Keeps (a a' : Allocator) : Type 0 where
  pub base : a'.segment_base ≡ a.segment_base
  pub total : a'.segment_size ≡ a.segment_size
  pub first : a'.first_block ≡ a.first_block
  pub headers : a'.header_block ≡ a.header_block
  pub requests : a'.requested_size ≡ a.requested_size

-- The list agrees with the flags, but perhaps at `b`.
abbrev pub ExactBut : ℕ → Allocator → (bs xs : List ℕ) → Type 0
ExactBut b a bs xs = (q : ℕ) → has q bs ≡ true → q ≢ b → has q xs ≡ a.is_free q

pub record IsSplit (a : Allocator) (b u : ℕ) (bs xs : List ℕ) (a' : Allocator) (bs' xs' : List ℕ)
    : Type 0 where
  pub keeps : Keeps a a'
  pub blocks : BlocksOf a' bs'
  pub listed : ListedIn a' bs' xs'
  pub still : (q : ℕ) → has q bs ≡ true → has q bs' ≡ true
  pub unlisted : has b xs' ≡ false
  pub exact : ExactBut b a bs xs → ExactBut b a' bs' xs'
  pub room : (u ≤ a'.size b) × (a'.size b ≤ a.size b)
  pub slack : a'.size b < u + 48
  pub flag : a'.is_free b ≡ a.is_free b
  pub others :
      (q : ℕ) → has q bs ≡ true → q ≢ b → (a'.size q ≡ a.size q) × (a'.is_free q ≡ a.is_free q)

module _ (a : Allocator) (b u : ℕ) (bs xs : List ℕ) (blocks : BlocksOf a bs) (l : ListedIn a bs xs)
    (i : has b bs ≡ true) (out : has b xs ≡ false) (lo : 32 ≤ u) (m : u % 16 ≡ 0)
    (hi : u ≤ a.size b) where
  new_out : u < a.size b → has (b + u) bs ≡ false
  new_out lt = elim (Bool-cases (has (b + u) bs)) [
    | inr no' ↦ no'
    | inl in' ↦
        absurd (omega (arith, Chain-apart a.size _ _ b (b + u) bs blocks.chain i in' (omega arith)))
  ]

  carved : Allocator
  carved = carve b u (b + u) (a.size b - u) a

  carved-Blocks : u + 48 ≤ a.size b → BlocksOf carved (insert_after b (b + u) bs)
  unfolding carved
  carved-Blocks room = record {
    base_pos = blocks.base_pos;
    first_ge = blocks.first_ge;
    spaced = blocks.spaced;
    small = blocks.small;
    chain = Chain-split a.size _ _ b u bs blocks.chain i lo m (omega arith);
  }

  carved-Listed : u + 48 ≤ a.size b → ListedIn carved (insert_after b (b + u) bs) xs
  unfolding carved
  carved-Listed room =
      let fresh = new_out (omega arith) in
      record {
        links = Links-frame a.next_free _ _ xs l.links (λ q j. ground (arith, l.within q));
        sorted = Sorted-congr a.size carved.size xs l.sorted (λ q j. ground (arith, l.within q));
        within = λ q j. ground (arith, has-insert_after b (b + u) q bs, l.within q);
      }

  whole : a.size b < u + 48 → IsSplit a b u bs xs a bs xs
  whole tight = record {
    keeps = record { base = refl; total = refl; first = refl; headers = refl; requests = refl };
    blocks = blocks;
    listed = l;
    still = λ q j. j;
    unlisted = out;
    exact = λ ex. ex;
    room = (hi, omega arith);
    slack = tight;
    flag = refl;
    others = λ q j n. (refl, refl);
  }

  parted :
      (room : u + 48 ≤ a.size b) (h : ℕ) (n : ℕ → ℕ)
      → ListedIn (relink h n carved) (insert_after b (b + u) bs) (insert_by carved.size (b + u) xs)
      → IsSplit a b u bs xs
          (relink h n carved)
          (insert_after b (b + u) bs)
          (insert_by carved.size (b + u) xs)
  unfolding carved
  parted room h n li =
      let fresh = new_out (omega arith) in
      record {
        keeps = record { base = refl; total = refl; first = refl; headers = refl; requests = refl };
        blocks = carved-Blocks room;
        listed = li;
        still = λ q j. ground (arith, has-insert_after b (b + u) q bs);
        unlisted = ground (arith, has-insert carved.size (b + u) b xs);
        exact = λ ex q j ne. ground (
          arith,
          has-insert_after b (b + u) q bs,
          has-insert carved.size (b + u) q xs,
          ex q,
          l.within q,
        );
        room = ground arith;
        slack = ground arith;
        flag = ground arith;
        others = λ q j ne. ground arith;
      }

  -- `split_allocated_block` of a block that is not listed, at a size of at least 32 that is a multiple of
  -- 16 and not above the block's, returns, and keeps the chain and the free list well formed: the block
  -- holds `u` bytes and less than 48 more, and all other blocks stay.
  pub split_allocated_block-IsSplit :
      (a' : Allocator) × (bs' : List ℕ) × (xs' : List ℕ) × (split_allocated_block b u a ≡ ok tt a')
      × IsSplit a b u bs xs a' bs' xs'
  unfolding split_allocated_block carved
  split_allocated_block-IsSplit =
      let e : a.size b -w u ≡ a.size b - u =
        omega (arith, Chain-Member a.size _ _ b bs blocks.chain i, blocks.small) in
      let e' : b +w u ≡ b + u =
        omega (arith, Chain-Member a.size _ _ b bs blocks.chain i, blocks.small) in
      rw (e, e')
        (elim (Bool-cases (ltb (a.size b - u) 48)) [
          | inl small ↦ (a, bs, xs, rw small, whole (omega tests))
          | inr large ↦
              let room : u + 48 ≤ a.size b = omega tests in
              let fresh = new_out (omega arith) in
              let (h, n, run, li) =
                insert_free_block-Listed carved _ xs (carved-Blocks room) (carved-Listed room)
                  (b + u) (ground (arith, has-insert_after b (b + u) (b + u) bs))
                  (ground (arith, l.within (b + u))) in
              (relink h n carved, _, _, rw large run, parted room h n li)
        ])
