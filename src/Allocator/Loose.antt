-- ===== src/Allocator/Loose.antt =====
-- `deallocate_block`: the state between its writes, in which one block is not listed.
use shm_next.Base.{
  ℕ, ◌+◌, ◌≤◌, ◌≡◌, ◌≢◌, refl, true, false, List, arith, ◌==◌, has, erase, ◌∙◌, update, ◌+w◌,
  has-erase_ne, has-erase_self, has-of-erase,
}
use mathlib.Core.Path.{subst}
use shm_next.Allocator.{Allocator, ok, put_size}
use shm_next.Allocator.Count
use shm_next.Allocator.Chain.{Chain, Chain-Member, Chain-Distinct}
use shm_next.Allocator.Chain.Edit.{Chain-merge}
use shm_next.Allocator.Calls.{absorb, merge_next, merge_previous}
use shm_next.Allocator.FreeList.{remove_free_block}
use shm_next.Allocator.FreeList.Order.{Sorted-congr}
use shm_next.Allocator.Invariant.{BlocksOf, ListedIn}
use shm_next.Allocator.Split.{Keeps, ExactBut}
use shm_next.Allocator.Walks.{physical_next, physical_previous}

-- Block `b` is not listed; but for it the invariant holds.
pub record Loose (a : Allocator) (b : ℕ) (bs xs : List ℕ) : Type 0 where
  pub blocks : BlocksOf a bs
  pub listed : ListedIn a bs xs
  pub present : has b bs ≡ true
  pub unlisted : has b xs ≡ false
  pub exact : ExactBut b a bs xs
  pub first : has a.first_block bs ≡ true

-- From `b` in `a` to `b'` in `a'`: block `b'` covers `b`, and the other blocks in use are as before.
pub record Grows (a : Allocator) (b : ℕ) (bs : List ℕ) (a' : Allocator) (b' : ℕ) (bs' : List ℕ)
    : Type 0 where
  pub keeps : Keeps a a'
  pub from : b' ≤ b
  pub to : b + a.size b ≤ b' + a'.size b'
  pub live :
      (q : ℕ)
      → has q bs ≡ true
      → q ≢ b
      → a.is_free q ≡ false
      → (has q bs' ≡ true) × (q ≢ b') × (a'.size q ≡ a.size q) × (a'.is_free q ≡ false)

-- the write that both merges make
abbrev pub joined : (p b : ℕ) → Allocator → Allocator
joined p b a = Count.merge (put_size p (a.size p +w a.size b) a)

module _ (a : Allocator) (p b : ℕ) (bs xs : List ℕ) (blocks : BlocksOf a bs) (l : ListedIn a bs xs)
    (i : has p bs ≡ true) (j : has b bs ≡ true) (out : has p xs ≡ false) (out' : has b xs ≡ false)
    (meet : p + a.size p ≡ b) where
  sum : a.size p +w a.size b ≡ a.size p + a.size b
  sum = omega (arith, Chain-Member a.size _ _ b bs blocks.chain j, blocks.small)

  joined-Chain :
      Chain
        (update a.size p (a.size p + a.size b))
        a.first_block
        (a.segment_base + a.segment_size)
        (erase b bs)
  joined-Chain =
      subst
        (λ z.
          Chain (update a.size p (a.size p + a.size z)) a.first_block
            (a.segment_base + a.segment_size) (erase z bs))
        meet (Chain-merge a.size _ _ p bs blocks.chain i (rw meet j))

  pub joined-Loose :
      ((q : ℕ) → has q bs ≡ true → q ≢ p → q ≢ b → has q xs ≡ a.is_free q)
      → has a.first_block bs ≡ true
      → Loose (joined p b a) p (erase b bs) xs
  joined-Loose exact first =
      let m = Chain-Member a.size _ _ p bs blocks.chain i in
      let d = Chain-Distinct a.size _ _ bs blocks.chain in
      rw sum (record {
        blocks = record {
          base_pos = blocks.base_pos;
          first_ge = blocks.first_ge;
          spaced = blocks.spaced;
          small = blocks.small;
          chain = joined-Chain;
        };
        listed = record {
          links = l.links;
          sorted =
              Sorted-congr a.size (update a.size p (a.size p + a.size b)) xs l.sorted
                (λ q k. ground arith);
          within = λ q k. has-erase_ne b q bs (ground arith) ∙ l.within q k;
        };
        present = has-erase_ne b p bs (omega arith) ∙ i;
        unlisted = out;
        exact =
            λ q k ne. exact q (has-of-erase b q bs k) ne (ground (arith, has-erase_self b bs d));
        first = has-erase_ne b a.first_block bs (omega arith) ∙ first;
      })

pub absorb_run :
    (a a₁ : Allocator) (listed p b : ℕ)
    → remove_free_block listed a ≡ ok tt a₁
    → absorb listed p b a ≡ ok tt (joined p b a₁)
unfolding absorb
absorb_run a a₁ listed p b run = rw run

pub merge_next_run :
    (a a' : Allocator) (b n : ℕ)
    → physical_next a b ≡ n
    → (n == 0) ≡ false
    → a.is_free n ≡ true
    → absorb n b n a ≡ ok tt a'
    → merge_next b a ≡ ok tt a'
unfolding merge_next
merge_next_run a a' b n e z f run = rw (e, z, f) run

pub merge_previous_run :
    (a a' : Allocator) (b r : ℕ)
    → physical_previous a b ≡ r
    → (r == 0) ≡ false
    → a.is_free r ≡ true
    → absorb r r b a ≡ ok tt a'
    → merge_previous b a ≡ ok r a'
unfolding merge_previous
merge_previous_run a a' b r e z f run = rw (e, z, f, run)

pub Grows-refl : (a : Allocator) (b : ℕ) (bs : List ℕ) → Grows a b bs a b bs
Grows-refl a b bs = record {
  keeps = record { base = refl; total = refl; first = refl; headers = refl; requests = refl };
  from = omega arith;
  to = omega arith;
  live = λ q i ne f. (i, ne, refl, f);
}
