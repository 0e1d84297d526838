-- ===== src/Tests/Pools.antt =====
-- The theorems on the node pool, with an allocator that hands out every 64th address.
use shm_next.Base.{
  ℕ, ◌+◌, ◌≡◌, refl, none, some, [], ◌∷◌, arith, ltb, ◌==◌, if◌then◌else◌, rev_append,
}
use shm_next.NodePool.{
  NodeAllocator, Pool, create, build, create_new, pop_cached_node, shrink_to_fit,
}
use shm_next.NodePool.Laws.{IsPool, Unchanged, create-throws}
use shm_next.NodePool.Shrink.{give_back, shrink_to_fit-gives}

-- The world is the next address. A constructor fails when the world is at its end.
abbrev bump : NodeAllocator ℕ
bump = record {
  allocate = λ w. (if ltb w 0x8000 then some w else none, w + 64);
  construct = λ p w. (ltb w 0x8000, w);
  destroy = λ p w. w;
  deallocate = λ p w. w + 1;
}

abbrev cached : ℕ → Pool ℕ
cached w = record {
  free_nodes = 0x2000;
  cached_node_count = 2;
  node_pool_hits = 5;
  node_pool_allocations = 9;
  next = λ p. if p == 0x2000 then 0x1000 else 0;
  world = w;
}

cached-IsPool : (w : ℕ) → IsPool (cached w) (0x2000 ∷ 0x1000 ∷ [])
cached-IsPool w = record {
  links = (refl, omega arith, (refl, omega arith, refl));
  distinct = (refl, (refl, tt));
  count = refl;
  bounded = omega arith;
}

create-throws_example :
    Unchanged bump (cached 0x8000) (0x2000 ∷ 0x1000 ∷ []) (create bump (cached 0x8000)).1
unfolding create create_new build pop_cached_node
create-throws_example =
    create-throws bump (cached 0x8000) (0x2000 ∷ 0x1000 ∷ []) (cached-IsPool 0x8000) (omega arith)
      refl

shrink_to_fit-gives_example :
    (q : Pool ℕ) × (shrink_to_fit bump (cached 0x4000) ≡ some q)
    × (q.world ≡ give_back bump (rev_append (0x2000 ∷ 0x1000 ∷ []) []) 0x4000)
    × IsPool q []
    × (q.node_pool_hits ≡ 5)
shrink_to_fit-gives_example =
    shrink_to_fit-gives bump (cached 0x4000) (0x2000 ∷ 0x1000 ∷ []) (cached-IsPool 0x4000)
