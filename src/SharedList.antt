-- ===== src/SharedList.antt =====
-- interprocess/container/shared_memory_list.h: a ring of nodes with two links each, through a sentinel.
--
-- `Nodes` is what stands in the nodes, in the sentinels too: the links by address, and the values.
-- `SharedList` is the rest of a list. The node allocator is a parameter, and `build` is what its
-- `construct` does for a node with a given value. The handle of the allocator is a number that tells
-- which memory manager it is for.
pub mod Linking
pub mod Calls
pub mod Splicing
pub mod Segments
pub mod Insertion
pub mod Removal
pub mod Reversal
pub mod Sorting
pub mod Clearing
use shm_next.Base.{
  ℕ, zero, suc, ◌+◌, ◌+w◌, ◌-w◌, Bool, Option, none, some, ◌==◌, if◌then◌else◌, update,
}
use shm_next.NodePool.{NodeAllocator, Pool}
use shm_next.NodePool

pub record Nodes (A : Type 0) : Type 0 where
  pub prev : ℕ → ℕ
  pub next : ℕ → ℕ
  pub value : ℕ → Option A

pub record SharedList (W : Type 0) : Type 0 where
  pub sentinel : ℕ
  pub size : ℕ
  pub allocator : ℕ
  pub node_pool : Pool W

-- the nodes and one list in them
pub record State (A W : Type 0) : Type 0 where
  pub nodes : Nodes A
  pub list : SharedList W

module _ {A : Type 0} where
  abbrev pub set_prev : ℕ → ℕ → Nodes A → Nodes A
  set_prev node p n = record n { prev = update n.prev node p }

  abbrev pub set_next : ℕ → ℕ → Nodes A → Nodes A
  set_next node p n = record n { next = update n.next node p }

  abbrev pub reset_sentinel : ℕ → Nodes A → Nodes A
  reset_sentinel s n = set_next s s (set_prev s s n)

  abbrev pub link_between : (prev next node : ℕ) → Nodes A → Nodes A
  link_between prev next node n =
      set_prev next node (set_next prev node (set_next node next (set_prev node prev n)))

  abbrev pub unlink : ℕ → Nodes A → Nodes A
  unlink node n = set_next node node (
      set_prev node node
        (set_prev (n.next node) (n.prev node) (set_next (n.prev node) (n.next node) n)))

-- An exception of `create_node` goes on to the caller, which is `none`.
module _ {A W : Type 0} (al : NodeAllocator W) (build : A → ℕ → W → Bool × W) where
  -- the node allocator, whose `construct` makes a node with the value `x`
  abbrev pub making : A → NodeAllocator W
  making x = record al { construct = build x }

  -- the constructor of the node, with the value, and the list with the pool that `create` left
  abbrev pub construct_node : A → State A W → Option ℕ × Pool W → Option ℕ × State A W
  construct_node x s (none, pool) = (none, record s { list = record s.list { node_pool = pool } })
  construct_node x s (some node, pool) = (
    some node,
    record {
      nodes = record s.nodes {
        prev = update s.nodes.prev node node;
        next = update s.nodes.next node node;
        value = update s.nodes.value node (some x);
      };
      list = record s.list { node_pool = pool };
    },
  )

  unfoldable pub create_node : A → State A W → Option ℕ × State A W
  create_node x s = construct_node x s (NodePool.create (making x) s.list.node_pool)

  unfoldable pub destroy_node : ℕ → State A W → State A W
  destroy_node node s = record s {
    list = record s.list { node_pool = NodePool.destroy al node s.list.node_pool };
  }

  abbrev pub link_node : (pos : ℕ) → Option ℕ × State A W → Option ℕ × State A W
  link_node pos (none, s) = (none, s)
  link_node pos (some node, s) = (
    some node,
    record {
      nodes = link_between (s.nodes.prev pos) pos node s.nodes;
      list = record s.list { size = s.list.size +w 1 };
    },
  )

  unfoldable pub emplace : (pos : ℕ) → A → State A W → Option ℕ × State A W
  emplace pos x s = link_node pos (create_node x s)

  -- the place of the element behind the one that was erased
  unfoldable pub erase : (pos : ℕ) → State A W → ℕ × State A W
  erase pos s =
      if pos == s.list.sentinel
      then (s.list.sentinel, s)
      else let next = s.nodes.next pos in
        let s₁ = destroy_node pos (record s { nodes = unlink pos s.nodes }) in
        (next, record s₁ { list = record s₁.list { size = s₁.list.size -w 1 } })

  -- the loop of `clear`
  unfoldable pub clear_loop : (fuel current : ℕ) → State A W → Option (State A W)
  clear_loop zero current s = none
  clear_loop (suc fuel) current s =
      let next = s.nodes.next current in
      let rest = clear_loop fuel next (destroy_node current s) in
      if current == s.list.sentinel then some s else rest

  unfoldable pub clear : State A W → Option (State A W)
  clear s = elim (clear_loop (s.list.size + 1) (s.nodes.next s.list.sentinel) s) [
    | none ↦ none
    | some s₁ ↦ some (record {
      nodes = reset_sentinel s₁.list.sentinel s₁.nodes;
      list = record s₁.list { size = 0 };
    })
  ]
