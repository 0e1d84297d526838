-- ===== src/NodePool/Laws.antt =====
-- shared_memory_node_pool.h: `create` and `destroy` over the list of the cached nodes.
use shm_next.Base.{
  ℕ, ◌+◌, ◌<◌, ◌≡◌, refl, Bool, true, false, List, [], ◌∷◌, none, some, arith, ◌==◌, has, Distinct,
  length, word, ◌+w◌, ◌-w◌, Links, Links-frame, Bool-cases, inl, inr, sym, eq→==, ap,
}
use mathlib.Core.Option.{some-injective}
use shm_next.NodePool.{
  NodeAllocator, Pool, less_one, pop_cached_node, push_cached_node, build, create_new, create,
  destroy,
}

-- The cached nodes are `xs`, the one that comes next first.
pub record IsPool {W : Type 0} (p : Pool W) (xs : List ℕ) : Type 0 where
  pub links : Links p.next p.free_nodes xs
  pub distinct : Distinct xs
  pub count : p.cached_node_count ≡ length xs
  pub bounded : length xs < word

module _ {W : Type 0} (al : NodeAllocator W) where
  push_cached_node-IsPool :
      (node : ℕ) (p : Pool W) (xs : List ℕ)
      → IsPool p xs
      → 0 < node
      → has node xs ≡ false
      → length xs + 1 < word
      → IsPool (push_cached_node node p) (node ∷ xs)
  unfolding push_cached_node
  push_cached_node-IsPool node p xs is pos out small =
      let self : (node == node) ≡ true = eq→== node node refl in
      record {
        links = (refl, pos, rw self (Links-frame p.next _ _ xs is.links λ q i. ground arith));
        distinct = (out, is.distinct);
        count = omega (arith, is.count);
        bounded = omega arith;
      }

  -- `destroy` of a node that is not cached caches it, in front of the others.
  pub destroy-IsPool :
      (node : ℕ) (p : Pool W) (xs : List ℕ)
      → IsPool p xs
      → 0 < node
      → has node xs ≡ false
      → length xs + 1 < word
      → IsPool (destroy al node p) (node ∷ xs)
  unfolding destroy
  destroy-IsPool node p xs is pos out small =
      let z : (node == 0) ≡ false = ground arith in
      rw (z, destroy)
        (push_cached_node-IsPool node (record p { world = al.destroy node p.world }) xs
          (record {
            links = is.links;
            distinct = is.distinct;
            count = is.count;
            bounded = is.bounded;
          })
          pos out small)

  -- the pool less its first cached node
  abbrev popped : Pool W → Pool W
  popped p = record p {
    free_nodes = p.next p.free_nodes;
    cached_node_count = p.cached_node_count -w 1;
    node_pool_hits = p.node_pool_hits +w 1;
  }

  create_empty : (p : Pool W) → p.free_nodes ≡ 0 → create al p ≡ create_new al p
  unfolding create pop_cached_node
  create_empty p e = rw (eq→== p.free_nodes 0 e)

  create_cached :
      (p : Pool W) (x : ℕ) → p.free_nodes ≡ x → 0 < x → create al p ≡ build al x true (popped p)
  unfolding create pop_cached_node
  create_cached p x e pos =
      let z : (p.free_nodes == 0) ≡ false = ground arith in
      rw (z, create) (rw z (ap (λ n. build al n true (popped p)) e))

  abbrev tried : ℕ → Pool W → Bool × W
  tried s p = al.construct s p.world

  build_ok :
      (s : ℕ) (f : Bool) (p : Pool W)
      → (tried s p).0 ≡ true
      → build al s f p ≡ (some s, record p { world = (tried s p).1 })
  unfolding build
  build_ok s f p e = rw e

  build_cached :
      (s : ℕ) (p : Pool W)
      → (tried s p).0 ≡ false
      → build al s true p ≡ (none, push_cached_node s (record p { world = (tried s p).1 }))
  unfolding build
  build_cached s p e = rw e

  build_new :
      (s : ℕ) (p : Pool W)
      → (tried s p).0 ≡ false
      → build al s false p ≡ (
        none,
        record p {
          world = al.deallocate s (tried s p).1;
          node_pool_allocations = less_one p.node_pool_allocations;
        },
      )
  unfolding build
  build_new s p e = rw e

  -- What `create` leaves when it returns `node`: the first cached node was taken, or, where there was
  -- none, new storage was counted.
  abbrev pub Success : Pool W → List ℕ → ℕ → Pool W → Type 0
  Success p [] node q =
      IsPool q []
      × (q.node_pool_allocations ≡ p.node_pool_allocations +w 1)
      × (q.node_pool_hits ≡ p.node_pool_hits)
  Success p (x ∷ xs) node q =
      (node ≡ x)
      × IsPool q xs
      × (q.node_pool_allocations ≡ p.node_pool_allocations)
      × (q.node_pool_hits ≡ p.node_pool_hits +w 1)

  create_new-Success :
      (p : Pool W) {node : ℕ}
      → IsPool p []
      → (create_new al p).0 ≡ some node
      → Success p [] node (create_new al p).1
  unfolding create_new build
  create_new-Success p is e = ground arith

  popped-IsPool :
      (p : Pool W) (x : ℕ) (xs : List ℕ)
      → IsPool p (x ∷ xs)
      → p.free_nodes ≡ x
      → (w : W) → IsPool (record (popped p) { world = w }) xs
  popped-IsPool p x xs is c w =
      let n : p.cached_node_count ≡ length xs + 1 = omega (arith, is.count) in
      let b : length xs + 1 < word = omega (arith, is.bounded) in
      record {
        links = rw c is.links.2;
        distinct = is.distinct.1;
        count = omega (arith, n, b);
        bounded = omega (arith, b);
      }

  build-Success :
      (p : Pool W) (x : ℕ) (xs : List ℕ) {node : ℕ}
      → IsPool p (x ∷ xs)
      → p.free_nodes ≡ x
      → (build al x true (popped p)).0 ≡ some node
      → Success p (x ∷ xs) node (build al x true (popped p)).1
  build-Success p x xs is c e = elim (Bool-cases (tried x (popped p)).0) [
    | inl t ↦
        let b = build_ok x true (popped p) t in
        rw b (
          sym (some-injective x _ (rw b at e)),
          popped-IsPool p x xs is c (tried x (popped p)).1,
          refl,
          refl,
        )
    | inr f ↦ let b = build_cached x (popped p) f in ground (arith, b)
  ]

  -- Where `create` returns a node, it is the first cached one and a hit is counted, or, where none is
  -- cached, an allocation is counted; the other nodes stay cached.
  pub create-Success :
      (p : Pool W) (xs : List ℕ) {node : ℕ}
      → IsPool p xs
      → (create al p).0 ≡ some node
      → Success p xs node (create al p).1
  create-Success p [] is e =
      let c = create_empty p is.links in rw c (create_new-Success p is (rw c at e))
  create-Success p (x ∷ xs) is e =
      let c = create_cached p x is.links.0 is.links.1 in
      rw c (build-Success p x xs is is.links.0 (rw c at e))

  create_new-allocated :
      (p : Pool W) {node : ℕ}
      → (create_new al p).0 ≡ some node
      → (al.allocate p.world).0 ≡ some node
  unfolding create_new build
  create_new-allocated p e = ground arith

  -- Where no node is cached, a node that `create` returns is one that the allocator gave.
  pub create-allocated :
      (p : Pool W) {node : ℕ}
      → IsPool p []
      → (create al p).0 ≡ some node
      → (al.allocate p.world).0 ≡ some node
  create-allocated p is e = let c = create_empty p is.links in create_new-allocated p (rw c at e)

  -- What `create` leaves when it throws: the same cached nodes in the same order, and no node counted.
  abbrev pub Unchanged : Pool W → List ℕ → Pool W → Type 0
  Unchanged p xs q = IsPool q xs × (q.node_pool_allocations ≡ p.node_pool_allocations)

  create_new-throws :
      (p : Pool W)
      → IsPool p []
      → p.node_pool_allocations + 1 < word
      → (create_new al p).0 ≡ none
      → Unchanged p [] (create_new al p).1
  unfolding create_new build
  create_new-throws p is small e = ground arith

  build-throws :
      (p : Pool W) (x : ℕ) (xs : List ℕ)
      → IsPool p (x ∷ xs)
      → p.free_nodes ≡ x
      → (build al x true (popped p)).0 ≡ none
      → Unchanged p (x ∷ xs) (build al x true (popped p)).1
  unfolding push_cached_node
  build-throws p x xs is c e = elim (Bool-cases (tried x (popped p)).0) [
    | inl t ↦ let b = build_ok x true (popped p) t in ground (arith, b)
    | inr f ↦
        let b = build_cached x (popped p) f in
        let w = (tried x (popped p)).1 in
        rw b (
          push_cached_node-IsPool x (record (popped p) { world = w }) xs
              (popped-IsPool p x xs is c w) is.links.1 is.distinct.0 (omega (arith, is.bounded)),
          refl,
        )
  ]

  -- Where `create` throws, the cached nodes and their order are as before, and so is the count of the
  -- allocations.
  pub create-throws :
      (p : Pool W) (xs : List ℕ)
      → IsPool p xs
      → p.node_pool_allocations + 1 < word
      → (create al p).0 ≡ none
      → Unchanged p xs (create al p).1
  create-throws p [] is small e =
      let c = create_empty p is.links in rw c (create_new-throws p is small (rw c at e))
  create-throws p (x ∷ xs) is small e =
      let c = create_cached p x is.links.0 is.links.1 in
      rw c (build-throws p x xs is is.links.0 (rw c at e))
