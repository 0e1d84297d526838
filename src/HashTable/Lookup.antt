-- ===== src/HashTable/Lookup.antt =====
-- shared_memory_hash_table.h: `at` on a well-formed table, and after `insert`.
use shm_next.Base.{ℕ, ◌≡◌, refl, Bool, true, false, List, some, has, arith, ◌==◌, inl, inr, ◌⊎◌}
use shm_next.NodePool.{NodeAllocator}
use shm_next.HashTable.{Table, BucketAllocator, Loads, find_node}
use shm_next.HashTable.Calls.{Run, done, thrown, at_key}
use shm_next.HashTable.Chains.{Chain-has_null}
use shm_next.HashTable.Invariant.{IsHash, IsTable}
use shm_next.HashTable.Finding.{find_node-Found}

module _ {K T W : Type 0} (hash : K → ℕ) (key_equal : K → K → Bool) (al : NodeAllocator W)
    (build : K × T → ℕ → W → Bool × W) (arrays : BucketAllocator W) (loads : Loads) where
  at_key-run :
      (key : K) (t : Table K T W) (node : ℕ) (kv : K × T)
      → find_node hash key_equal key t ≡ some node
      → (node == 0) ≡ false
      → t.nodes.value node ≡ some kv
      → at_key hash key_equal al build arrays loads key t ≡ done kv.1 t
  unfolding at_key
  at_key-run key t node kv h e v = rw (h, e, v, at_key) refl

  at_key-missing :
      (key : K) (t : Table K T W) (node : ℕ)
      → find_node hash key_equal key t ≡ some node
      → (node == 0) ≡ true
      → at_key hash key_equal al build arrays loads key t ≡ thrown t
  unfolding at_key
  at_key-missing key t node h e = rw (h, e, at_key) refl

  -- What `at` does: it throws, where no node has the key, or returns the value of the node that has it.
  abbrev pub At : (t : Table K T W) (ns : List ℕ) → K → Run K T W T → Type 0
  At t ns key run =
      ((run ≡ thrown t)
        × ((q : ℕ) (kv : K × T)
            → has q ns ≡ true
            → t.nodes.value q ≡ some kv
            → key_equal kv.0 key ≡ false))
      ⊎ ((node : ℕ) × (kv : K × T) × (run ≡ done kv.1 t)
          × (has node ns ≡ true)
          × (t.nodes.value node ≡ some kv)
          × (key_equal kv.0 key ≡ true))

  -- On a well-formed table `at` throws, where no node has a key that equals the given one, and returns the
  -- value of such a node otherwise. Equal keys have the same hash, and equality of keys is an equivalence.
  pub at_key-At :
      (t : Table K T W) (ns cached : List ℕ)
      → IsTable hash key_equal t ns cached
      → IsHash hash key_equal
      → (key : K) → At t ns key (at_key hash key_equal al build arrays loads key t)
  at_key-At t ns cached is eq key =
      let (r, run, found) = find_node-Found hash key_equal t ns cached is eq key in
      elim found [
        | inl (z, away) ↦ inl (at_key-missing key t r run (ground (arith, z)), away)
        | inr (i, kv, v, k) ↦
            let null =
              Chain-has_null t.nodes.iter_next t.nodes.iter_prev 0 t.head ns is.iteration in
            inr (r, kv, at_key-run key t r kv run (ground (arith, i, null)) v, i, v, k)
      ]

  -- What `at` gives after `insert`: where the key was new, its value, and for the keys that were there
  -- theirs; otherwise `insert` found the key, or threw.
  abbrev pub Kept : (t : Table K T W) (ns : List ℕ) → K × T → Run K T W (ℕ × Bool) → Type 0
  Kept t ns kv run =
      ((node : ℕ) × (run ≡ done (node, false) t))
      ⊎ (((node : ℕ) × (u : Table K T W) × (run ≡ done (node, true) u)
            × (at_key hash key_equal al build arrays loads kv.0 u ≡ done kv.1 u)
            × ((q : ℕ) (b : K × T)
                → has q ns ≡ true
                → t.nodes.value q ≡ some b
                → at_key hash key_equal al build arrays loads b.0 u ≡ done b.1 u))
          ⊎ ((u : Table K T W) × (run ≡ thrown u)))
