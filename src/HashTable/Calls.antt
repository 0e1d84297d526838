-- ===== src/HashTable/Calls.antt =====
-- shared_memory_hash_table.h: the calls of the table.
use shm_next.Base.{
  ℕ, zero, suc, ◌+◌, ◌*◌, ◌%◌, ◌+w◌, ◌-w◌, word, Bool, true, false, not, ◌||◌, Option, none, some,
  List, [], ◌∷◌, ltb, leb, ◌==◌, if◌then◌else◌, update,
}
use shm_next.NodePool
use shm_next.NodePool.{NodeAllocator, Pool}
use shm_next.HashTable.{
  Nodes, Table, BucketAllocator, Loads, Relink, linked, interrupted, never, default_bucket_count,
  normalize_bucket_count, minimum_bucket_count_for_size, initialize_bucket_array, loosen, find_node,
  link_new_node, unlink_bucket, unlink_iteration, relink_all_buckets,
}

-- A call returns or throws, and leaves a table; or a loop used up its fuel, or read a node without value.
pub data Run (K T W B : Type 0) : Type 0 where
  done : B → Table K T W → Run K T W B
  thrown : Table K T W → Run K T W B
  stuck : Run K T W B

module _ {K T W : Type 0} where
  abbrev pub and_then : {B C : Type 0} → Run K T W B → (B → Table K T W → Run K T W C) → Run K T W C
  and_then (done x t) k = k x t
  and_then (thrown t) k = thrown t
  and_then stuck k = stuck

  abbrev pub set_world : W → Table K T W → Table K T W
  set_world w t = record t { node_pool = record t.node_pool { world = w } }

module _ {K T W : Type 0} (hash : K → ℕ) (key_equal : K → K → Bool) (al : NodeAllocator W)
    (build : K × T → ℕ → W → Bool × W) (arrays : BucketAllocator W) (loads : Loads) where
  unfoldable pub release_buckets : Table K T W → Table K T W
  release_buckets t =
      if t.buckets == 0
      then t
      else record (set_world (arrays.deallocate t.buckets t.bucket_count t.node_pool.world) t) {
        buckets = 0;
        bucket_count = 0;
      }

  abbrev pub clear_buckets : Table K T W → Table K T W
  clear_buckets t =
      if t.buckets == 0
      then t
      else record t { array = initialize_bucket_array t.bucket_count t.array }

  -- what `rehash` does with the new array once the nodes are linked, or the hash threw
  abbrev pub relinked :
      (count : ℕ) → (new : ℕ) → Option (Relink K T) → Table K T W → Run K T W (Unit {0})
  relinked count new none t = stuck
  relinked count new (some (interrupted n)) t =
      thrown (set_world (arrays.deallocate new count t.node_pool.world) (record t { nodes = n }))
  relinked count new (some (linked array n)) t =
      done tt (record (release_buckets (record t { nodes = n })) {
        buckets = new;
        bucket_count = count;
        array = array;
      })

  -- `rehash` once the number of buckets is decided
  unfoldable pub rehash_to : (throws : K → Bool) → (count : ℕ) → Table K T W → Run K T W (Unit {0})
  rehash_to throws count t =
      let (given, w) = arrays.allocate count t.node_pool.world in
      elim given [
        | none ↦ thrown (set_world w t)
        | some new ↦
            let u = set_world w t in
            relinked count new.0
              (relink_all_buckets hash throws count (initialize_bucket_array count new.1) u) u
      ]

  unfoldable pub rehash :
      (throws : K → Bool) → (new_bucket_count : ℕ) → Table K T W → Run K T W (Unit {0})
  rehash throws new_bucket_count t =
      let wanted = normalize_bucket_count new_bucket_count in
      let needed = minimum_bucket_count_for_size loads t.size in
      let count = if ltb wanted needed then needed else wanted in
      if count == t.bucket_count then done tt t else rehash_to throws count t

  unfoldable pub maybe_rehash_for_insert : Table K T W → Run K T W (Unit {0})
  maybe_rehash_for_insert t =
      if (t.bucket_count == 0) || loads.above (t.size +w 1) t.bucket_count
      then rehash never
          (if t.bucket_count == 0 then default_bucket_count else (t.bucket_count * 2) % word) t
      else done tt t

  -- the node allocator, whose `construct` makes a node with the value `kv`
  abbrev pub making : K × T → NodeAllocator W
  making kv = record al { construct = build kv }

  -- what is done with the node that `create` gave: the constructor's nulls, `link_new_node` and `++size_`
  abbrev pub add_node : K × T → Option ℕ × Pool W → Table K T W → Run K T W (ℕ × Bool)
  add_node kv (none, pool) t = thrown (record t { node_pool = pool })
  add_node kv (some node, pool) t =
      let n = loosen node t.nodes in
      let u = link_new_node hash node (record t {
        nodes = record n { value = update n.value node (some kv) };
        node_pool = pool;
      }) in
      done (node, true) (record u { size = u.size +w 1 })

  -- the part of `insert_value` and `try_emplace_impl` for a key that is not there
  unfoldable pub insert_new : K × T → Table K T W → Run K T W (ℕ × Bool)
  insert_new kv t =
      and_then (maybe_rehash_for_insert t)
        λ _ u. add_node kv (NodePool.create (making kv) u.node_pool) u

  unfoldable pub insert_value : K × T → Table K T W → Run K T W (ℕ × Bool)
  insert_value kv t = elim (find_node hash key_equal kv.0 t) [
    | none ↦ stuck
    | some node ↦ if node == 0 then insert_new kv t else done (node, false) t
  ]

  unfoldable pub insert_or_assign : K × T → Table K T W → Run K T W (ℕ × Bool)
  insert_or_assign kv t = elim (find_node hash key_equal kv.0 t) [
    | none ↦ stuck
    | some node ↦ if node == 0 then insert_value kv t else elim (t.nodes.value node) [
      | none ↦ stuck
      | some old ↦
          done (node, false)
            (record t {
              nodes = record t.nodes { value = update t.nodes.value node (some (old.0, kv.1)) };
            })
    ]
  ]

  -- `at`, which throws `std::out_of_range`
  unfoldable pub at_key : K → Table K T W → Run K T W T
  at_key key t = elim (find_node hash key_equal key t) [
    | none ↦ stuck
    | some node ↦
        if node == 0
        then thrown t
        else elim (t.nodes.value node) [ none ↦ stuck | some kv ↦ done kv.1 t ]
  ]

  unfoldable pub contains : K → Table K T W → Option Bool
  contains key t = elim (find_node hash key_equal key t) [
    | none ↦ none
    | some node ↦ some (not (node == 0))
  ]

  unfoldable pub insert_range : List (K × T) → Table K T W → Run K T W (Unit {0})
  insert_range [] t = done tt t
  insert_range (kv ∷ kvs) t = and_then (insert_value kv t) λ _. insert_range kvs

  unfoldable pub destroy_node : (node : ℕ) → Table K T W → Table K T W
  destroy_node node t = record t { node_pool = NodePool.destroy al node t.node_pool }

  unfoldable pub erase_node : (node : ℕ) → Table K T W → Table K T W
  erase_node node t =
      let u = unlink_iteration node (unlink_bucket hash node t) in
      let v = destroy_node node (record u { nodes = loosen node u.nodes }) in
      record v { size = v.size -w 1 }

  unfoldable pub erase_key : K → Table K T W → Run K T W ℕ
  erase_key key t = elim (find_node hash key_equal key t) [
    | none ↦ stuck
    | some node ↦ if node == 0 then done 0 t else done 1 (erase_node node t)
  ]

  -- `erase` at a place, null being the end
  unfoldable pub erase_at : (pos : ℕ) → Table K T W → ℕ × Table K T W
  erase_at pos t = if pos == 0 then (0, t) else (t.nodes.iter_next pos, erase_node pos t)

  unfoldable pub erase_range : (fuel first last : ℕ) → Table K T W → Run K T W ℕ
  erase_range zero first last t = stuck
  erase_range (suc fuel) first last t =
      let (next, u) = erase_at first t in
      let rest = erase_range fuel next last u in if first == last then done last t else rest

  unfoldable pub clear_loop : (fuel current : ℕ) → Table K T W → Option (Table K T W)
  clear_loop zero current t = none
  clear_loop (suc fuel) current t =
      let rest = clear_loop fuel (t.nodes.iter_next current) (destroy_node current t) in
      if current == 0 then some t else rest

  unfoldable pub clear : Table K T W → Run K T W (Unit {0})
  clear t = elim (clear_loop (t.size + 1) t.head t) [
    | none ↦ stuck
    | some u ↦ done tt (clear_buckets (record u { head = 0; tail = 0; size = 0 }))
  ]

  unfoldable pub reserve : (throws : K → Bool) → (count : ℕ) → Table K T W → Run K T W (Unit {0})
  reserve throws count t =
      let needed = minimum_bucket_count_for_size loads count in
      if ltb t.bucket_count needed then rehash throws needed t else done tt t

  unfoldable pub shrink_to_fit : Table K T W → Run K T W (Unit {0})
  shrink_to_fit t = elim (NodePool.shrink_to_fit al t.node_pool) [
    | none ↦ stuck
    | some pool ↦ done tt (record t { node_pool = pool })
  ]

  -- the destructor
  unfoldable pub destroy_table : Table K T W → Run K T W (Unit {0})
  destroy_table t =
      and_then (clear t) λ _ u. and_then (shrink_to_fit u) λ _ v. done tt (release_buckets v)

  unfoldable pub initialize_buckets : (requested_count : ℕ) → Table K T W → Run K T W (Unit {0})
  initialize_buckets requested_count t =
      let count = normalize_bucket_count requested_count in
      let (given, w) = arrays.allocate count t.node_pool.world in
      elim given [
        | none ↦ thrown (record (set_world w t) { bucket_count = count })
        | some new ↦ done tt (record (set_world w t) {
          buckets = new.0;
          bucket_count = count;
          array = initialize_bucket_array count new.1;
        })
      ]

  -- The constructor from a range, with what it does when an insertion throws.
  unfoldable pub construct_range :
      (bucket_count : ℕ) → List (K × T) → Table K T W → Run K T W (Unit {0})
  construct_range bucket_count kvs t = and_then (initialize_buckets bucket_count t) λ _ u.
      elim (insert_range kvs u) [
        | done _ v ↦ done tt v
        | thrown v ↦ and_then (destroy_table v) λ _ w. thrown w
        | stuck ↦ stuck
      ]

-- The move constructor: the new table, and what is left of the other one.
unfoldable pub move : {K T W : Type 0} → Table K T W → Table K T W × Table K T W
move t =
    let (mine, theirs) = NodePool.move t.node_pool in
    (
      record t { node_pool = mine },
      record t { node_pool = theirs; buckets = 0; bucket_count = 0; size = 0; head = 0; tail = 0 },
    )

unfoldable pub bucket_size_loop : {K T : Type 0} → (fuel node : ℕ) → Nodes K T → Option ℕ
bucket_size_loop zero node n = none
bucket_size_loop (suc fuel) node n =
    let rest = bucket_size_loop fuel (n.bucket_next node) n in
    if node == 0 then some 0 else elim rest [ none ↦ none | some count ↦ some (count +w 1) ]

-- `bucket_size`, which throws `std::out_of_range`
unfoldable pub bucket_size : {K T W : Type 0} → (index : ℕ) → Table K T W → Run K T W ℕ
bucket_size index t =
    if leb t.bucket_count index
    then thrown t
    else elim (bucket_size_loop (t.size + 1) (t.array index) t.nodes) [
      | none ↦ stuck
      | some count ↦ done count t
    ]
