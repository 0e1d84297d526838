-- ===== src/Allocator/FreeList/Remove.antt =====
-- `remove_free_block` takes one block off the list.
use shm_next.Base.{
  ℕ, zero, suc, ◌<◌, ◌≡◌, ◌≢◌, refl, true, false, List, [], ◌∷◌, arith, ◌==◌, has, erase, Distinct,
  length, Bool-cases, inl, inr, ◌∙◌, ==→eq, eq→==,
}
use shm_next.Allocator.{Allocator, ok}
use shm_next.Allocator.FreeList.{unlink, remove_loop}
use shm_next.Allocator.FreeList.Links.{Links, Links-frame, relink, link}

-- Links `h` and `n` after `target` has gone from the list behind `prev`.
pub record Removed (a : Allocator) (prev target : ℕ) (xs : List ℕ) (h : ℕ) (n : ℕ → ℕ)
    : Type 0 where
  pub links : Links n (link h n prev) (erase target xs)
  pub cleared : n target ≡ 0
  pub other : (q : ℕ) → q ≢ prev → has q xs ≡ false → n q ≡ a.next_free q
  pub head : prev ≢ 0 → h ≡ a.free_list_head

module _ (a : Allocator) where
  Removed-here :
      (prev target : ℕ) (xs : List ℕ)
      → Links a.next_free target (target ∷ xs)
      → Distinct (target ∷ xs)
      → has prev (target ∷ xs) ≡ false
      → Removed a prev target
          (target ∷ xs)
          (unlink prev target a).free_list_head
          (unlink prev target a).next_free
  unfolding unlink
  Removed-here prev target xs (_, pos, l) d np =
      let e : link (unlink prev target a).free_list_head (unlink prev target a).next_free prev
          ≡ a.next_free target =
        ground arith in
      let hit : (target == target) ≡ true = ground arith in
      record {
        links = rw (hit, e) (Links-frame a.next_free _ _ xs l λ q i. ground (arith, d.0));
        cleared = ground arith;
        other = ground arith;
        head = ground arith;
      }

module _ (a : Allocator) (target : ℕ) where
  Removed-step :
      (prev x : ℕ) (xs : List ℕ) (h : ℕ) (n : ℕ → ℕ)
      → 0 < x
      → (target == x) ≡ false
      → link a.free_list_head a.next_free prev ≡ x
      → has prev (x ∷ xs) ≡ false
      → Removed a x target xs h n
      → Removed a prev target (x ∷ xs) h n
  Removed-step prev x xs h n px nt at np r = record {
    links = rw nt (ground (arith, r.other prev, r.head), px, ground (arith, r.links));
    cleared = r.cleared;
    other = λ q qp qs. r.other q (ground arith) (ground arith);
    head = λ p. r.head (ground arith);
  }

  pub remove_loop-Removed :
      (fuel prev curr : ℕ) (xs : List ℕ)
      → Links a.next_free curr xs
      → link a.free_list_head a.next_free prev ≡ curr
      → Distinct xs
      → length xs < fuel
      → has prev xs ≡ false
      → has target xs ≡ true
      → (h : ℕ) × (n : ℕ → ℕ) × (remove_loop fuel prev curr target a ≡ ok tt (relink h n a))
        × Removed a prev target xs h n
  unfolding remove_loop unlink
  remove_loop-Removed zero prev curr xs l at d f np nt = absurd (omega arith)
  remove_loop-Removed (suc fuel) prev curr [] l at d f np nt = cc
  remove_loop-Removed (suc fuel) prev curr (x ∷ xs) l at d f np nt =
      rw l.0 (elim (Bool-cases (x == target)) [
        | inl hit ↦ rw (← ==→eq x target hit) (
          (unlink prev x a).free_list_head,
          (unlink prev x a).next_free,
          rw (nonzero, eq→== x x refl),
          Removed-here a prev x xs (refl, l.1, l.2) d np,
        )
        | inr miss ↦
            let (h, n, run, r) =
              remove_loop-Removed fuel x (a.next_free x) xs l.2 (ground arith) d.1 (omega arith) d.0
                (ground arith) in
            (
              h,
              n,
              rw (nonzero, miss) run,
              Removed-step prev x xs h n l.1 (ground arith) (at ∙ l.0) np r,
            )
      ])
    where
      nonzero : (x == 0) ≡ false
      nonzero = ground arith
