-- ===== src/NodePool.antt =====
-- interprocess/container/detail/shared_memory_node_pool.h: a cache of nodes that were given back.
--
-- The storage of a cached node holds a `FreeNode`, a link to the next cached node: `next p` is that
-- link. The node allocator is a template parameter of the pool, and so a parameter here.
pub mod Laws
pub mod Shrink
use shm_next.Base.{
  ℕ, zero, suc, ◌+◌, Bool, true, false, Option, none, some, ltb, ◌==◌, if◌then◌else◌, update, ◌+w◌,
  ◌-w◌,
}

-- What the pool calls. `allocate` may throw, then it gives no address; `construct` may throw, then it
-- gives `false`.
pub record NodeAllocator (W : Type 0) : Type 0 where
  pub allocate : W → Option ℕ × W
  pub construct : ℕ → W → Bool × W
  pub destroy : ℕ → W → W
  pub deallocate : ℕ → W → W

pub record Pool (W : Type 0) : Type 0 where
  pub free_nodes : ℕ
  pub cached_node_count : ℕ
  pub node_pool_hits : ℕ
  pub node_pool_allocations : ℕ
  pub next : ℕ → ℕ
  pub world : W

-- `none` is the exception that goes on to the caller.
abbrev pub Created : Type 0 → Type 0
Created W = Option ℕ × Pool W

-- the counter that goes down unless it is 0
abbrev pub less_one : ℕ → ℕ
less_one n = if ltb 0 n then n -w 1 else n

-- with the rounds that are left
unfoldable pub reverse_loop : ℕ → (next : ℕ → ℕ) → (current previous : ℕ) → Option (ℕ × (ℕ → ℕ))
reverse_loop zero next current previous = none
reverse_loop (suc fuel) next current previous =
    let rest = reverse_loop fuel (update next current previous) (next current) current in
    if current == 0 then some (previous, next) else rest

module _ {W : Type 0} where
  unfoldable pub empty_pool : W → Pool W
  empty_pool w = record {
    free_nodes = 0;
    cached_node_count = 0;
    node_pool_hits = 0;
    node_pool_allocations = 0;
    next = λ _. 0;
    world = w;
  }

  unfoldable pub pop_cached_node : Pool W → ℕ × Pool W
  pop_cached_node p = if p.free_nodes == 0 then (0, p) else (
    p.free_nodes,
    record p {
      free_nodes = p.next p.free_nodes;
      cached_node_count = p.cached_node_count -w 1;
      node_pool_hits = p.node_pool_hits +w 1;
    },
  )

  unfoldable pub push_cached_node : ℕ → Pool W → Pool W
  push_cached_node node p = record p {
    next = update p.next node p.free_nodes;
    free_nodes = node;
    cached_node_count = p.cached_node_count +w 1;
  }

  -- the head and the links of the reversed list
  unfoldable pub reverse_free_list : Pool W → Option (ℕ × (ℕ → ℕ))
  reverse_free_list p = reverse_loop (p.cached_node_count + 1) p.next p.free_nodes 0

module _ {W : Type 0} (al : NodeAllocator W) where
  -- the constructor of the node, and what is done with its storage when it throws
  unfoldable pub build : (storage : ℕ) → (from_cache : Bool) → Pool W → Created W
  build storage from_cache p =
      let (done, w) = al.construct storage p.world in
      let q = record p { world = w } in
      if done
      then (some storage, q)
      else if from_cache
      then (none, push_cached_node storage q)
      else (
        none,
        record q {
          world = al.deallocate storage w;
          node_pool_allocations = less_one q.node_pool_allocations;
        },
      )

  -- storage from the allocator
  unfoldable pub create_new : Pool W → Created W
  create_new p =
      let (storage, w) = al.allocate p.world in
      elim storage [
        | none ↦ (none, record p { world = w })
        | some s ↦
            build s false
              (record p { world = w; node_pool_allocations = p.node_pool_allocations +w 1 })
      ]

  unfoldable pub create : Pool W → Created W
  create p =
      let (node, q) = pop_cached_node p in if node == 0 then create_new q else build node true q

  unfoldable pub destroy : ℕ → Pool W → Pool W
  destroy node p =
      if node == 0 then p else push_cached_node node (record p { world = al.destroy node p.world })

  unfoldable pub release_loop : ℕ → (node : ℕ) → Pool W → Option (Pool W)
  release_loop zero node p = none
  release_loop (suc fuel) node p =
      let rest = release_loop fuel (p.next node) (record p {
        world = al.deallocate node p.world;
        node_pool_allocations = less_one p.node_pool_allocations;
      }) in
      if node == 0 then some (record p { cached_node_count = 0 }) else rest

  unfoldable pub shrink_to_fit : Pool W → Option (Pool W)
  shrink_to_fit p = elim (reverse_free_list p) [
    | none ↦ none
    | some (node, next) ↦
        release_loop (p.cached_node_count + 1) node (record p { next = next; free_nodes = 0 })
  ]

-- The move constructor: the new pool, and what is left of the old one.
unfoldable pub move : {W : Type 0} → Pool W → Pool W × Pool W
move p = (
  p,
  record p { free_nodes = 0; cached_node_count = 0; node_pool_hits = 0; node_pool_allocations = 0 },
)
