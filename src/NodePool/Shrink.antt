-- ===== src/NodePool/Shrink.antt =====
-- shared_memory_node_pool.h: `shrink_to_fit` gives every cached node back to the node allocator.
use shm_next.Base.{
  ℕ, zero, suc, ◌+◌, ◌<◌, ◌≡◌, refl, true, false, List, [], ◌∷◌, Option, some, arith, ◌==◌, has,
  Distinct, length, update, Links, Links-frame, eq→==, rev_append, length-rev_append,
}
use shm_next.NodePool.{
  NodeAllocator, Pool, less_one, reverse_loop, reverse_free_list, release_loop, shrink_to_fit,
}
use shm_next.NodePool.Laws.{IsPool}

-- What the loop leaves: the list behind `previous` is `xs` backwards, then `ys`.
abbrev Reversed : Option (ℕ × (ℕ → ℕ)) → List ℕ → Type 0
Reversed o zs = (h : ℕ) × (n : ℕ → ℕ) × (o ≡ some (h, n)) × Links n h zs

reverse_loop-Reversed :
    (fuel : ℕ) (next : ℕ → ℕ) (current previous : ℕ) (xs ys : List ℕ)
    → length xs < fuel
    → Links next current xs
    → Links next previous ys
    → Distinct xs
    → ((q : ℕ) → has q xs ≡ true → has q ys ≡ false)
    → Reversed (reverse_loop fuel next current previous) (rev_append xs ys)
unfolding reverse_loop
reverse_loop-Reversed zero next current previous xs ys enough l k d apart = absurd (omega arith)
reverse_loop-Reversed (suc fuel) next current previous [] ys enough l k d apart =
    rw (eq→== current 0 l) (previous, next, refl, k)
reverse_loop-Reversed (suc fuel) next current previous (x ∷ xs) ys enough (c, pos, l) k (out, d)
      apart =
    let z : (current == 0) ≡ false = ground arith in
    let self : (x == x) ≡ true = eq→== x x refl in
    let next' = update next x previous in
    let frame_l = Links-frame next next' (next x) xs l λ q i. ground arith in
    let frame_k = Links-frame next next' previous ys k λ q i. ground (arith, apart x) in
    let rest =
      reverse_loop-Reversed fuel next' (next x) x xs (x ∷ ys) (omega arith) frame_l
        (refl, pos, rw self frame_k) d λ q i. ground (arith, apart q) in
    rw (z, c) rest

-- The nodes are given back one after the other.
abbrev pub give_back : {W : Type 0} → NodeAllocator W → List ℕ → W → W
give_back al [] w = w
give_back al (x ∷ xs) w = give_back al xs (al.deallocate x w)

module _ {W : Type 0} (al : NodeAllocator W) where
  release_loop-gives :
      (fuel node : ℕ) (p : Pool W) (xs : List ℕ)
      → length xs < fuel
      → Links p.next node xs
      → p.free_nodes ≡ 0
      → (q : Pool W) × (release_loop al fuel node p ≡ some q)
        × (q.world ≡ give_back al xs p.world)
        × (q.free_nodes ≡ 0)
        × (q.cached_node_count ≡ 0)
        × (q.node_pool_hits ≡ p.node_pool_hits)
  unfolding release_loop
  release_loop-gives zero node p xs enough l f = absurd (omega arith)
  release_loop-gives (suc fuel) node p [] enough l f =
      rw (eq→== node 0 l) (record p { cached_node_count = 0 }, refl, refl, f, refl, refl)
  release_loop-gives (suc fuel) node p (x ∷ xs) enough (c, pos, l) f =
      let z : (node == 0) ≡ false = ground arith in
      let rest =
        release_loop-gives fuel (p.next x)
          (record p {
            world = al.deallocate x p.world;
            node_pool_allocations = less_one p.node_pool_allocations;
          })
          xs (omega arith) l f in
      rw (z, c) rest

  -- `shrink_to_fit` ends: every cached node is given back, the one cached first before the others,
  -- and none is cached then.
  pub shrink_to_fit-gives :
      (p : Pool W) (xs : List ℕ)
      → IsPool p xs
      → (q : Pool W) × (shrink_to_fit al p ≡ some q)
        × (q.world ≡ give_back al (rev_append xs []) p.world)
        × IsPool q []
        × (q.node_pool_hits ≡ p.node_pool_hits)
  unfolding shrink_to_fit reverse_free_list
  shrink_to_fit-gives p xs is =
      let n : length xs < p.cached_node_count + 1 = omega (arith, is.count) in
      let (h, next, e, l) =
        reverse_loop-Reversed (p.cached_node_count + 1) p.next p.free_nodes 0 xs [] n is.links refl
          is.distinct λ q i. refl in
      let m : length (rev_append xs []) < p.cached_node_count + 1 =
        omega (arith, length-rev_append xs [], n) in
      let (q, r, w, f, c, hits) =
        release_loop-gives (p.cached_node_count + 1) h (record p { next = next; free_nodes = 0 })
          (rev_append xs []) m l refl in
      rw (e, shrink_to_fit)
        (q, r, w, record { links = f; distinct = tt; count = c; bounded = omega arith }, hits)
