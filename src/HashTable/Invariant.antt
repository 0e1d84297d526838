-- ===== src/HashTable/Invariant.antt =====
-- shared_memory_hash_table.h: a well-formed table.
use shm_next.Base.{
  ℕ, ◌+◌, ◌<◌, ◌≡◌, Bool, true, false, List, [], some, has, Distinct, ◌==◌, last_or, length, word,
}
use shm_next.NodePool.{Pool}
use shm_next.NodePool.Laws.{IsPool}
use shm_next.HashTable.{Table}
use shm_next.HashTable.Chains.{Chain}
use shm_next.HashTable.Buckets.{Bucketed}

-- Keys that are equal have the same hash, and equality is an equivalence.
pub record IsHash {K : Type 0} (hash : K → ℕ) (key_equal : K → K → Bool) : Type 0 where
  pub same_hash : (a b : K) → key_equal a b ≡ true → hash a ≡ hash b
  pub reflexive : (a : K) → key_equal a a ≡ true
  pub symmetric : (a b : K) → key_equal a b ≡ true → key_equal b a ≡ true
  pub transitive : (a b c : K) → key_equal a b ≡ true → key_equal b c ≡ true → key_equal a c ≡ true

-- The table holds the nodes `ns`, in this order; `cached` are the nodes that its pool keeps.
pub record IsTable {K T W : Type 0} (hash : K → ℕ) (key_equal : K → K → Bool) (t : Table K T W)
    (ns cached : List ℕ) : Type 0 where
  pub iteration : Chain t.nodes.iter_next t.nodes.iter_prev 0 t.head ns
  pub tail : t.tail ≡ last_or 0 ns
  pub cs : ℕ → List ℕ
  pub bucketed :
      Bucketed hash t.nodes.value t.nodes.bucket_next t.nodes.bucket_prev t.bucket_count t.array cs
        (λ q. has q ns)
  pub distinct : Distinct ns
  pub size : t.size ≡ length ns
  pub bounded : length ns + length cached + 1 < word
  pub pool : IsPool t.node_pool cached
  pub apart : (q : ℕ) → has q cached ≡ true → has q ns ≡ false
  pub entries : (q : ℕ) → has q ns ≡ true → (kv : K × T) × (t.nodes.value q ≡ some kv)
  pub keys :
      (p q : ℕ) (a b : K × T)
      → has p ns ≡ true
      → has q ns ≡ true
      → t.nodes.value p ≡ some a
      → t.nodes.value q ≡ some b
      → key_equal a.0 b.0 ≡ true
      → p ≡ q
  pub present : (t.buckets == 0) ≡ (t.bucket_count == 0)
  pub empty : t.bucket_count ≡ 0 → ns ≡ []

-- The pool is of no other concern to the table than the nodes that it keeps.
pub IsTable-pool :
    {K T W : Type 0} (hash : K → ℕ) (key_equal : K → K → Bool) (t : Table K T W)
    (ns cached : List ℕ) (pool : Pool W)
    → IsTable hash key_equal t ns cached
    → IsPool pool cached
    → IsTable hash key_equal (record t { node_pool = pool }) ns cached
IsTable-pool hash key_equal t ns cached pool is p = record {
  iteration = is.iteration;
  tail = is.tail;
  cs = is.cs;
  bucketed = is.bucketed;
  distinct = is.distinct;
  size = is.size;
  bounded = is.bounded;
  pool = p;
  apart = is.apart;
  entries = is.entries;
  keys = is.keys;
  present = is.present;
  empty = is.empty;
}
