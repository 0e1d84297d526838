-- ===== src/HashTable.antt =====
-- interprocess/container/detail/shared_memory_hash_table.h: a table of chains, whose nodes are linked in
-- the order of their insertion too.
--
-- `Nodes` is what stands in the nodes, by address, and `array` what stands in the bucket array. The
-- node allocator and the bucket allocator are parameters, `build` is what the former's `construct` does
-- for a node with a given value, `hash` and `key_equal` are the function objects. `Loads` has the tests
-- in floating point: `above size count` whether `size` elements are more than `count` buckets may hold,
-- and `required size` the quotient, rounded up, of `size` and the greatest load. `throws` tells for
-- which keys the hash throws while a call of `rehash` or `reserve` links the nodes anew; the calls that
-- look a key up, and with them the insertion, are for a hash and a key equality that do not throw.
pub mod Calls
pub mod Chains
pub mod Buckets
pub mod Invariant
pub mod Finding
pub mod Relinking
pub mod Rehashing
pub mod Entries
pub mod Insertion
pub mod Erasure
pub mod Lookup
use shm_next.Base.{
  ℕ, zero, suc, ◌+◌, ◌%◌, ◌*◌, ◌+w◌, ◌-w◌, word, Bool, true, false, not, ◌||◌, ◌&&◌, Option, none,
  some, ltb, ◌==◌, if◌then◌else◌, update,
}
use shm_next.NodePool
use shm_next.NodePool.{NodeAllocator, Pool}

pub record Nodes (K T : Type 0) : Type 0 where
  pub bucket_prev : ℕ → ℕ
  pub bucket_next : ℕ → ℕ
  pub iter_prev : ℕ → ℕ
  pub iter_next : ℕ → ℕ
  pub value : ℕ → Option (K × T)

pub record Table (K T W : Type 0) : Type 0 where
  pub nodes : Nodes K T
  pub buckets : ℕ
  pub array : ℕ → ℕ
  pub bucket_count : ℕ
  pub size : ℕ
  pub head : ℕ
  pub tail : ℕ
  pub node_pool : Pool W

-- `allocate` gives the address of an array, and what stands in it, or throws.
pub record BucketAllocator (W : Type 0) : Type 0 where
  pub allocate : (count : ℕ) → W → Option (ℕ × (ℕ → ℕ)) × W
  pub deallocate : (p count : ℕ) → W → W

pub record Loads : Type 0 where
  pub above : (size count : ℕ) → Bool
  pub required : (size : ℕ) → ℕ

-- What `relink_all_buckets` leaves: the array and the nodes, or the nodes where the hash threw.
pub data Relink (K T : Type 0) : Type 0 where
  linked : (ℕ → ℕ) → Nodes K T → Relink K T
  interrupted : Nodes K T → Relink K T

abbrev pub default_bucket_count : ℕ
default_bucket_count = 8

abbrev pub normalize_bucket_count : ℕ → ℕ
normalize_bucket_count requested = if requested == 0 then default_bucket_count else requested

abbrev pub minimum_bucket_count_for_size : Loads → ℕ → ℕ
minimum_bucket_count_for_size loads count =
    if count == 0 then default_bucket_count else normalize_bucket_count (loads.required count)

-- the loop that makes the first `count` buckets empty
unfoldable pub initialize_bucket_array : (count : ℕ) → (ℕ → ℕ) → ℕ → ℕ
initialize_bucket_array zero array = array
initialize_bucket_array (suc count) array = update (initialize_bucket_array count array) count 0

-- `p->field = v`, where `p` is not null
abbrev pub put_at : (p v : ℕ) → (ℕ → ℕ) → ℕ → ℕ
put_at p v f q = if p == 0 then f q else update f p v q

module _ {K T : Type 0} where
  -- A node goes in front of the chain that begins at `first`.
  abbrev pub push_bucket : (node first : ℕ) → Nodes K T → Nodes K T
  push_bucket node first n = record n {
    bucket_next = update n.bucket_next node first;
    bucket_prev = put_at first node (update n.bucket_prev node 0);
  }

  -- A node goes behind the last one in the order of iteration.
  abbrev pub push_iteration : (node tail : ℕ) → Nodes K T → Nodes K T
  push_iteration node tail n = record n {
    iter_prev = update n.iter_prev node tail;
    iter_next = put_at tail node (update n.iter_next node 0);
  }

  -- the links of the neighbours of a node that leaves its chain
  abbrev pub cut_bucket : (node : ℕ) → Nodes K T → Nodes K T
  cut_bucket node n = record n {
    bucket_next = put_at (n.bucket_prev node) (n.bucket_next node) n.bucket_next;
    bucket_prev = put_at (n.bucket_next node) (n.bucket_prev node) n.bucket_prev;
  }

  abbrev pub cut_iteration : (node : ℕ) → Nodes K T → Nodes K T
  cut_iteration node n = record n {
    iter_next = put_at (n.iter_prev node) (n.iter_next node) n.iter_next;
    iter_prev = put_at (n.iter_next node) (n.iter_prev node) n.iter_prev;
  }

  -- the links of a node set to null
  abbrev pub loosen : (node : ℕ) → Nodes K T → Nodes K T
  loosen node n = record n {
    bucket_prev = update n.bucket_prev node 0;
    bucket_next = update n.bucket_next node 0;
    iter_prev = update n.iter_prev node 0;
    iter_next = update n.iter_next node 0;
  }

module _ {K : Type 0} (hash : K → ℕ) where
  abbrev pub bucket_index_for : K → (count : ℕ) → ℕ
  bucket_index_for key count = if count == 0 then 0 else hash key % count

  -- the index of a node's key; a node of a table has a value
  abbrev pub bucket_of : {T : Type 0} → Option (K × T) → (count : ℕ) → ℕ
  bucket_of none count = 0
  bucket_of (some kv) count = bucket_index_for kv.0 count

-- whether the call of the hash for a node's key throws
abbrev pub index_throws : {K T : Type 0} → (K → Bool) → Option (K × T) → (count : ℕ) → Bool
index_throws throws none count = false
index_throws throws (some kv) count = not (count == 0) && throws kv.0

-- a hash that does not throw
abbrev pub never : {K : Type 0} → K → Bool
never key = false

module _ {K T : Type 0} where
  unfoldable pub unlink_iteration : {W : Type 0} → (node : ℕ) → Table K T W → Table K T W
  unlink_iteration node t = record t {
    nodes = cut_iteration node t.nodes;
    head = if t.nodes.iter_prev node == 0 then t.nodes.iter_next node else t.head;
    tail = if t.nodes.iter_next node == 0 then t.nodes.iter_prev node else t.tail;
  }

  -- the first loop of `relink_all_buckets`
  unfoldable pub reset_loop : (fuel node : ℕ) → Nodes K T → Option (Nodes K T)
  reset_loop zero node n = none
  reset_loop (suc fuel) node n =
      let rest = reset_loop fuel (n.iter_next node) (record n {
        bucket_prev = update n.bucket_prev node 0;
        bucket_next = update n.bucket_next node 0;
      }) in
      if node == 0 then some n else rest

module _ {K T : Type 0} (hash : K → ℕ) where
  unfoldable pub link_new_node : {W : Type 0} → (node : ℕ) → Table K T W → Table K T W
  link_new_node node t =
      let index = bucket_of hash (t.nodes.value node) t.bucket_count in
      record t {
        nodes = push_iteration node t.tail (push_bucket node (t.array index) t.nodes);
        array = update t.array index node;
        head = if t.tail == 0 then node else t.head;
        tail = node;
      }

  unfoldable pub unlink_bucket : {W : Type 0} → (node : ℕ) → Table K T W → Table K T W
  unlink_bucket node t =
      let index = bucket_of hash (t.nodes.value node) t.bucket_count in
      record t {
        nodes = cut_bucket node t.nodes;
        array =
            if t.nodes.bucket_prev node == 0
            then update t.array index (t.nodes.bucket_next node)
            else t.array;
      }

  -- the second loop of `relink_all_buckets`
  unfoldable pub relink_loop :
      (throws : K → Bool) (fuel node count : ℕ) → (ℕ → ℕ) → Nodes K T → Option (Relink K T)
  relink_loop throws zero node count array n = none
  relink_loop throws (suc fuel) node count array n =
      let index = bucket_of hash (n.value node) count in
      let rest =
        relink_loop throws fuel (n.iter_next node) count (update array index node)
          (push_bucket node (array index) n) in
      if node == 0
      then some (linked array n)
      else if index_throws throws (n.value node) count
      then some (interrupted n)
      else rest

  unfoldable pub relink_all_buckets :
      {W : Type 0} → (throws : K → Bool) → (count : ℕ) → (ℕ → ℕ) → Table K T W → Option (Relink K T)
  relink_all_buckets throws count array t = elim (reset_loop (t.size + 1) t.head t.nodes) [
    | none ↦ none
    | some n ↦ relink_loop throws (t.size + 1) t.head count array n
  ]

module _ {K T : Type 0} (hash : K → ℕ) (key_equal : K → K → Bool) where
  -- the loop of `find_node`; null where no node has the key
  unfoldable pub find_loop : (fuel node : ℕ) → K → Nodes K T → Option ℕ
  find_loop zero node key n = none
  find_loop (suc fuel) node key n =
      let rest = find_loop fuel (n.bucket_next node) key n in
      if node == 0 then some 0 else elim (n.value node) [
        | none ↦ none
        | some kv ↦ if key_equal kv.0 key then some node else rest
      ]

  unfoldable pub find_node : {W : Type 0} → K → Table K T W → Option ℕ
  find_node key t =
      if t.bucket_count == 0
      then some 0
      else find_loop (t.size + 1) (t.array (bucket_index_for hash key t.bucket_count)) key t.nodes
