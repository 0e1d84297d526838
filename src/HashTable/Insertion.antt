-- ===== src/HashTable/Insertion.antt =====
-- shared_memory_hash_table.h: `insert` on a well-formed table.
use mathlib.Core.Path.{subst}
use shm_next.Base.{
  ℕ, ◌+◌, ◌≤◌, ◌<◌, ◌≡◌, refl, Bool, true, false, List, [], ◌∷◌, ◌++◌, Option, none, some, has,
  arith, ◌==◌, if◌then◌else◌, ◌∙◌, sym, ap, inl, inr, ◌⊎◌, length, word, update_eq, update_ne,
  Option-cases, Links-has_null, has-ne,
}
use shm_next.NodePool
use shm_next.NodePool.{NodeAllocator, Pool}
use shm_next.NodePool.Laws.{IsPool, create-Success, create-throws, create-allocated}
use shm_next.HashTable.{Table, BucketAllocator, Loads, find_node, link_new_node}
use shm_next.HashTable.Calls.{
  Run, done, thrown, making, add_node, insert_new, insert_value, maybe_rehash_for_insert, and_then,
}
use shm_next.HashTable.Chains.{Chain-has_null}
use shm_next.HashTable.Invariant.{IsHash, IsTable, IsTable-pool}
use shm_next.HashTable.Finding.{find_node-Found}
use shm_next.HashTable.Entries.{with_entry, entry-IsTable}
use shm_next.HashTable.Rehashing.{Rehashed, maybe_rehash_for_insert-Rehash}

module _ {K T W : Type 0} (hash : K → ℕ) (key_equal : K → K → Bool) (al : NodeAllocator W)
    (build : K × T → ℕ → W → Bool × W) (arrays : BucketAllocator W) (loads : Loads) where
  abbrev create_for : K × T → Table K T W → Option ℕ × Pool W
  create_for kv u = NodePool.create (making hash key_equal al build arrays loads kv) u.node_pool

  insert_new-made :
      (kv : K × T) (t u : Table K T W) (node : ℕ)
      → maybe_rehash_for_insert hash key_equal al build arrays loads t ≡ done tt u
      → (create_for kv u).0 ≡ some node
      → insert_new hash key_equal al build arrays loads kv t
        ≡ done (node, true) (with_entry hash key_equal node kv (create_for kv u).1 u)
  unfolding insert_new link_new_node
  insert_new-made kv t u node h e =
      ap
        (λ r.
          and_then r λ _ v. add_node hash key_equal al build arrays loads kv (create_for kv v) v)
        h
      ∙ ap (λ o. add_node hash key_equal al build arrays loads kv (o, (create_for kv u).1) u) e

  insert_new-threw :
      (kv : K × T) (t u : Table K T W)
      → maybe_rehash_for_insert hash key_equal al build arrays loads t ≡ done tt u
      → (create_for kv u).0 ≡ none
      → insert_new hash key_equal al build arrays loads kv t
        ≡ thrown (record u { node_pool = (create_for kv u).1 })
  unfolding insert_new
  insert_new-threw kv t u h e =
      ap
        (λ r.
          and_then r λ _ v. add_node hash key_equal al build arrays loads kv (create_for kv v) v)
        h
      ∙ ap (λ o. add_node hash key_equal al build arrays loads kv (o, (create_for kv u).1) u) e

  insert_new-stopped :
      (kv : K × T) (t u : Table K T W)
      → maybe_rehash_for_insert hash key_equal al build arrays loads t ≡ thrown u
      → insert_new hash key_equal al build arrays loads kv t ≡ thrown u
  unfolding insert_new
  insert_new-stopped kv t u h =
      ap
        (λ r.
          and_then r λ _ v. add_node hash key_equal al build arrays loads kv (create_for kv v) v)
        h

  insert_value-run :
      (kv : K × T) (t : Table K T W) (node : ℕ)
      → find_node hash key_equal kv.0 t ≡ some node
      → insert_value hash key_equal al build arrays loads kv t ≡ (
          if node == 0
          then insert_new hash key_equal al build arrays loads kv t
          else done (node, false) t)
  unfolding insert_value
  insert_value-run kv t node h = rw (h, insert_value) refl

  -- A new node, behind the others, has the entry, and they keep theirs.
  pub record Added (t : Table K T W) (ns : List ℕ) (kv : K × T) (node : ℕ) (u : Table K T W)
      : Type 0 where
    pub cached : List ℕ
    pub table : IsTable hash key_equal u (ns ++ (node ∷ [])) cached
    pub mine : u.nodes.value node ≡ some kv
    pub others : (q : ℕ) → has q ns ≡ true → u.nodes.value q ≡ t.nodes.value q

  -- What `insert` does: it finds a node with the key and changes nothing, or it adds a node, or it throws
  -- and leaves the nodes, their order and values.
  abbrev pub Insert : (t : Table K T W) (ns cached : List ℕ) → K × T → Run K T W (ℕ × Bool) → Type 0
  Insert t ns cached kv run =
      ((node : ℕ) × (b : K × T) × (run ≡ done (node, false) t)
        × (has node ns ≡ true)
        × (t.nodes.value node ≡ some b)
        × (key_equal b.0 kv.0 ≡ true))
      ⊎ (((node : ℕ) × (u : Table K T W) × (run ≡ done (node, true) u) × Added t ns kv node u)
          ⊎ ((u : Table K T W) × (run ≡ thrown u)
              × (u.nodes.value ≡ t.nodes.value)
              × IsTable hash key_equal u ns cached))

  module _ (t : Table K T W) (ns cached : List ℕ) (is : IsTable hash key_equal t ns cached)
      (eq : IsHash hash key_equal)
      (given : (count : ℕ) (w : W) (p : ℕ × (ℕ → ℕ))
        → (arrays.allocate count w).0 ≡ some p
        → 0 < p.0)
      (fresh : (u : Table K T W) (node : ℕ)
        → maybe_rehash_for_insert hash key_equal al build arrays loads t ≡ done tt u
        → (al.allocate u.node_pool.world).0 ≡ some node
        → has node (0 ∷ ns) ≡ false)
      (small : length ns + length cached + 2 < word)
      (counted : t.node_pool.node_pool_allocations + 1 < word) (kv : K × T) where
    abbrev Away : Type 0
    Away =
        (q : ℕ) (b : K × T)
        → has q ns ≡ true
        → t.nodes.value q ≡ some b
        → key_equal b.0 kv.0 ≡ false

    entry-Added :
        (u : Table K T W) (node : ℕ) (left : List ℕ) (pool : Pool W)
        → Rehashed hash key_equal al build arrays loads t ns cached u
        → 0 < u.bucket_count
        → Away
        → has node (0 ∷ ns) ≡ false
        → IsPool pool left
        → ((q : ℕ) → has q left ≡ true → has q cached ≡ true)
        → has node left ≡ false
        → length left ≤ length cached
        → Added t ns kv node (with_entry hash key_equal node kv pool u)
    entry-Added u node left pool r buckets away out p sub new le = record {
      cached = left;
      table =
          entry-IsTable hash key_equal u ns cached left r.table kv node pool out buckets p sub new
            le small (λ q b i v. away q b i (sym (ap (λ f. f q) r.value) ∙ v)) eq;
      mine = update_eq u.nodes.value node node (some kv) (ground arith);
      others = λ q i.
          update_ne u.nodes.value node q (some kv) (has-ne q node ns i (ground (arith, out)))
          ∙ ap (λ f. f q) r.value;
    }

    made-Added :
        (u : Table K T W) (node : ℕ)
        → maybe_rehash_for_insert hash key_equal al build arrays loads t ≡ done tt u
        → Rehashed hash key_equal al build arrays loads t ns cached u
        → 0 < u.bucket_count
        → Away
        → (create_for kv u).0 ≡ some node
        → (cs : List ℕ) → cs ≡ cached
        → Added t ns kv node (with_entry hash key_equal node kv (create_for kv u).1 u)
    made-Added u node run r buckets away e [] c =
        let p = subst (IsPool u.node_pool) (sym c) r.table.pool in
        let make = making hash key_equal al build arrays loads kv in
        let ok = create-Success make u.node_pool [] p e in
        let gave = create-allocated make u.node_pool p e in
        entry-Added u node [] (create_for kv u).1 r buckets away (fresh u node run gave) ok.0
          (λ q i. ground (arith, i)) refl (omega arith)
    made-Added u node run r buckets away e (k ∷ ks) c =
        let p = subst (IsPool u.node_pool) (sym c) r.table.pool in
        let make = making hash key_equal al build arrays loads kv in
        let (same, ok, _, _) = create-Success make u.node_pool (k ∷ ks) p e in
        let i : has node cached ≡ true =
          subst (λ cs. has node cs ≡ true) c (ground (arith, same)) in
        let a = r.table.apart node i in
        let z = Links-has_null u.node_pool.next u.node_pool.free_nodes (k ∷ ks) p.links in
        entry-Added u node ks (create_for kv u).1 r buckets away (ground (arith, a, z, same)) ok
          (λ q j. subst (λ cs. has q cs ≡ true) c (ground (arith, j)))
          (subst (λ n. has n ks ≡ false) (sym same) p.distinct.0)
          (subst (λ cs. length ks ≤ length cs) c (omega arith))

    insert_new-Insert :
        Away → Insert t ns cached kv (insert_new hash key_equal al build arrays loads kv t)
    insert_new-Insert away =
        elim (maybe_rehash_for_insert-Rehash hash key_equal al build arrays loads t ns cached is
          given) [
            | inr (u, run, r) ↦ inr (inr (u, insert_new-stopped kv t u run, r.value, r.table))
            | inl (u, run, r, buckets) ↦ elim (Option-cases (create_for kv u).0) [
              | inr (node, e) ↦ inr (
                  inl (
                    node,
                    with_entry hash key_equal node kv (create_for kv u).1 u,
                    insert_new-made kv t u node run e,
                    made-Added u node run r buckets away e cached refl,
                  ))
              | inl e ↦
                  let p =
                    create-throws (making hash key_equal al build arrays loads kv) u.node_pool
                      cached r.table.pool (omega (arith, counted, r.allocations)) e in
                  inr (
                    inr (
                      record u { node_pool = (create_for kv u).1 },
                      insert_new-threw kv t u run e,
                      r.value,
                      IsTable-pool hash key_equal u ns cached (create_for kv u).1 r.table p.0,
                    ))
            ]
          ]

    -- `insert` into a well-formed table finds the key, or adds a node behind the others, or throws; each
    -- time the table stays well formed. Equal keys have the same hash, and equality of keys is an
    -- equivalence; an array that is given does not stand at null; the node that the allocator gives, if it
    -- gives one, is neither null nor in the table; and the nodes and the allocations do not overflow a word.
    pub insert_value-Insert :
        Insert t ns cached kv (insert_value hash key_equal al build arrays loads kv t)
    insert_value-Insert =
        let (r, run, found) = find_node-Found hash key_equal t ns cached is eq kv.0 in
        let ran = insert_value-run kv t r run in
        elim found [
          | inl (z, away) ↦
              let e : insert_value hash key_equal al build arrays loads kv t
                  ≡ insert_new hash key_equal al build arrays loads kv t =
                ran
                ∙ ap
                    (λ m.
                      if m == 0
                      then insert_new hash key_equal al build arrays loads kv t
                      else done (m, false) t)
                    z in
              subst (Insert t ns cached kv) (sym e) (insert_new-Insert away)
          | inr (i, b, v, k) ↦
              let null =
                Chain-has_null t.nodes.iter_next t.nodes.iter_prev 0 t.head ns is.iteration in
              let pos : (r == 0) ≡ false = ground (arith, i, null) in
              inl (
                r,
                b,
                ran
                    ∙ ap
                        (λ b.
                          if b
                          then insert_new hash key_equal al build arrays loads kv t
                          else done (r, false) t)
                        pos,
                i,
                v,
                k,
              )
        ]
