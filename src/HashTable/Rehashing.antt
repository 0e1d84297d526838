-- ===== src/HashTable/Rehashing.antt =====
-- shared_memory_hash_table.h: `rehash` puts the nodes of a well-formed table into new buckets.
use mathlib.Core.Path.{subst}
use shm_next.Base.{
  ℕ, ◌*◌, ◌%◌, ◌<◌, ◌≡◌, refl, Bool, true, false, ◌||◌, List, Option, none, some, has, arith, ◌==◌,
  ltb, if◌then◌else◌, ◌∙◌, sym, ap, inl, inr, ◌⊎◌, word, Bool-cases, Option-cases, ==→eq, ◌+w◌,
}
use shm_next.NodePool.{NodeAllocator}
use shm_next.HashTable.{
  Nodes, Table, BucketAllocator, Loads, Relink, linked, interrupted, index_throws, never,
  initialize_bucket_array, relink_all_buckets, default_bucket_count, normalize_bucket_count,
  minimum_bucket_count_for_size,
}
use shm_next.HashTable.Calls.{
  Run, done, thrown, set_world, release_buckets, rehash_to, rehash, maybe_rehash_for_insert,
}
use shm_next.HashTable.Relinking.{Relinked, Interrupted, relink_all_buckets-Relinked}
use shm_next.HashTable.Chains.{Chain-frame}
use shm_next.HashTable.Invariant.{IsTable, IsTable-pool}

never_throws : {K T : Type 0} (v : Option (K × T)) (count : ℕ) → index_throws never v count ≡ false
never_throws none count = refl
never_throws (some kv) count = ground arith

module _ {K T W : Type 0} (hash : K → ℕ) (key_equal : K → K → Bool) (al : NodeAllocator W)
    (build : K × T → ℕ → W → Bool × W) (arrays : BucketAllocator W) (loads : Loads) where
  -- the table with other buckets, linked by `n`
  abbrev with_buckets :
      (w : W) → (n : Nodes K T) → (buckets count : ℕ) → (ℕ → ℕ) → Table K T W → Table K T W
  with_buckets w n buckets count array t = record (set_world w t) {
    nodes = n;
    buckets = buckets;
    bucket_count = count;
    array = array;
  }

  module _ (throws : K → Bool) (count : ℕ) (t : Table K T W) where
    abbrev asked : Option (ℕ × (ℕ → ℕ)) × W
    asked = arrays.allocate count t.node_pool.world

    abbrev relinking : (new : ℕ × (ℕ → ℕ)) → Option (Relink K T)
    relinking new =
        relink_all_buckets hash throws count (initialize_bucket_array count new.1)
          (set_world asked.1 t)

    rehash_to-made :
        (new : ℕ × (ℕ → ℕ)) (r : (ℕ → ℕ) × Nodes K T)
        → asked.0 ≡ some new
        → relinking new ≡ some (linked r.0 r.1)
        → (w : W) × (rehash_to hash key_equal al build arrays loads throws count t
            ≡ done tt (with_buckets w r.1 new.0 count r.0 t))
    unfolding rehash_to release_buckets
    rehash_to-made new r h g = elim (Bool-cases (t.buckets == 0)) [
      | inl e ↦ (asked.1, rw (h, g, e, rehash_to, release_buckets) refl)
      | inr e ↦ (
        arrays.deallocate t.buckets t.bucket_count asked.1,
        rw (h, g, e, rehash_to, release_buckets) refl,
      )
    ]

    -- the table after the hash threw
    abbrev broken_off : (new : ℕ) → Nodes K T → Table K T W
    broken_off new n = set_world (arrays.deallocate new count asked.1) (record t { nodes = n })

    rehash_to-interrupted :
        (new : ℕ × (ℕ → ℕ)) (n : Nodes K T)
        → asked.0 ≡ some new
        → relinking new ≡ some (interrupted n)
        → rehash_to hash key_equal al build arrays loads throws count t
          ≡ thrown (broken_off new.0 n)
    unfolding rehash_to
    rehash_to-interrupted new n h g = rw (h, g, rehash_to) refl

    rehash_to-threw :
        asked.0 ≡ none
        → rehash_to hash key_equal al build arrays loads throws count t
          ≡ thrown (set_world asked.1 t)
    unfolding rehash_to
    rehash_to-threw h = rw (h, rehash_to) refl

  -- Another table with the same nodes in the same order, the same values and the same pool.
  pub record Rehashed (t : Table K T W) (ns cached : List ℕ) (u : Table K T W) : Type 0 where
    pub table : IsTable hash key_equal u ns cached
    pub value : u.nodes.value ≡ t.nodes.value
    pub allocations : u.node_pool.node_pool_allocations ≡ t.node_pool.node_pool_allocations

  -- What `rehash` does where the hash does not throw: it returns, and there are buckets, or the allocation
  -- of the array throws.
  abbrev pub Rehash : (t : Table K T W) (ns cached : List ℕ) → Run K T W (Unit {0}) → Type 0
  Rehash t ns cached run =
      ((u : Table K T W) × (run ≡ done tt u) × Rehashed t ns cached u × (0 < u.bucket_count))
      ⊎ ((u : Table K T W) × (run ≡ thrown u) × Rehashed t ns cached u)

  -- The hash threw in a rehash to `count` buckets: the new array is given back, the exception goes on, and
  -- only the links of the chains are not those of `t`.
  abbrev pub BrokenOff :
      (throws : K → Bool) (t : Table K T W) (ns : List ℕ) → Run K T W (Unit {0}) → Type 0
  BrokenOff throws t ns run =
      (count : ℕ) × (new : ℕ × (ℕ → ℕ)) × (n : Nodes K T) × ((arrays.allocate count
          t.node_pool.world).0
        ≡ some new)
      × (run
          ≡ thrown (
              set_world (arrays.deallocate new.0 count (arrays.allocate count t.node_pool.world).1)
                (record t { nodes = n })))
      × Interrupted hash throws count t.nodes ns n

  module _ (t : Table K T W) (ns cached : List ℕ) (is : IsTable hash key_equal t ns cached)
      (given : (count : ℕ) (w : W) (p : ℕ × (ℕ → ℕ))
        → (arrays.allocate count w).0 ≡ some p
        → 0 < p.0) where
    set_world-Rehashed : (w : W) → Rehashed t ns cached (set_world w t)
    set_world-Rehashed w = record {
      table =
          IsTable-pool hash key_equal t ns cached (record t.node_pool { world = w }) is
            (record {
              links = is.pool.links;
              distinct = is.pool.distinct;
              count = is.pool.count;
              bounded = is.pool.bounded;
            });
      value = refl;
      allocations = refl;
    }

    with_buckets-Rehashed :
        (w : W) (n : Nodes K T) (buckets count : ℕ) (array : ℕ → ℕ)
        → 0 < buckets
        → 0 < count
        → Relinked hash count t.nodes (λ q. has q ns) array n
        → Rehashed t ns cached (with_buckets w n buckets count array t)
    with_buckets-Rehashed w n buckets count array pb pc made =
        let base = (set_world-Rehashed w).table in
        let o = made.order in
        record {
          table = record {
            iteration =
                Chain-frame t.nodes.iter_next t.nodes.iter_prev n.iter_next n.iter_prev 0 t.head ns
                  (λ q i. ap (λ f. f q) o.iter_next) (λ q i. ap (λ f. f q) o.iter_prev)
                  is.iteration;
            tail = is.tail;
            cs = made.cs;
            bucketed = made.bucketed;
            distinct = is.distinct;
            size = is.size;
            bounded = is.bounded;
            pool = base.pool;
            apart = is.apart;
            entries = λ q i. let (kv, v) = is.entries q i in (kv, ap (λ f. f q) o.value ∙ v);
            keys = λ p q a b i j v v'.
                is.keys p q a b i j (sym (ap (λ f. f p) o.value) ∙ v)
                  (sym (ap (λ f. f q) o.value) ∙ v');
            present = ground (arith, pb, pc);
            empty = λ e. absurd (omega (arith, e, pc));
          };
          value = o.value;
          allocations = refl;
        }

    module _ (throws : K → Bool) where
      -- the outcomes of `rehash` for a hash that may throw
      abbrev Outcome : Run K T W (Unit {0}) → Type 0
      Outcome run = Rehash t ns cached run ⊎ BrokenOff throws t ns run

      rehash_to-Outcome :
          (count : ℕ)
          → 0 < count
          → Outcome (rehash_to hash key_equal al build arrays loads throws count t)
      rehash_to-Outcome count pos =
          let (given', w) = arrays.allocate count t.node_pool.world in
          elim (Option-cases (arrays.allocate count t.node_pool.world).0) [
            | inl e ↦
                inl (inr (set_world w t, rehash_to-threw throws count t e, set_world-Rehashed w))
            | inr (new, e) ↦
                elim (relink_all_buckets-Relinked hash throws (set_world w t) ns count new.1
                  is.iteration is.size is.distinct is.entries pos) [
                    | inl (r, run, made) ↦
                        let (w', done') = rehash_to-made throws count t new r e run in
                        inl (
                          inl (
                            with_buckets w' r.1 new.0 count r.0 t,
                            done',
                            with_buckets-Rehashed w' r.1 new.0 count r.0
                                (given count t.node_pool.world new e) pos made,
                            pos,
                          ))
                    | inr (n, run, broke) ↦
                        inr (
                          count,
                          new,
                          n,
                          e,
                          rehash_to-interrupted throws count t new n e run,
                          broke,
                        )
                  ]
          ]

    abbrev wanted_count : (requested : ℕ) → ℕ
    wanted_count requested =
        let wanted = normalize_bucket_count requested in
        let needed = minimum_bucket_count_for_size loads t.size in
        if ltb wanted needed then needed else wanted

    wanted_count-pos : (requested : ℕ) → 0 < wanted_count requested
    wanted_count-pos requested =
        let pos : 0 < normalize_bucket_count requested = ground arith in ground (arith, pos)

    rehash_unneeded :
        (throws : K → Bool) (requested : ℕ)
        → (wanted_count requested == t.bucket_count) ≡ true
        → rehash hash key_equal al build arrays loads throws requested t ≡ done tt t
    unfolding rehash
    rehash_unneeded throws requested e = rw (e, rehash) refl

    rehash_needed :
        (throws : K → Bool) (requested : ℕ)
        → (wanted_count requested == t.bucket_count) ≡ false
        → rehash hash key_equal al build arrays loads throws requested t
          ≡ rehash_to hash key_equal al build arrays loads throws (wanted_count requested) t
    unfolding rehash
    rehash_needed throws requested e = rw (e, rehash) refl

    -- `rehash` of a well-formed table, where the hash may throw while the nodes are linked anew, returns a
    -- well-formed table with buckets and with the same nodes, order and values; or the allocation of the
    -- array throws and leaves such a table; or the hash throws at the key of one of the nodes, and then the
    -- new array is given back, the exception goes on, and the table is the old one but for the world and
    -- the links of the chains. An array that is given does not stand at null.
    pub rehash-Rehash :
        (throws : K → Bool) (requested : ℕ)
        → Rehash t ns cached (rehash hash key_equal al build arrays loads throws requested t)
          ⊎ BrokenOff throws t ns (rehash hash key_equal al build arrays loads throws requested t)
    rehash-Rehash throws requested =
        let pos = wanted_count-pos requested in
        elim (Bool-cases (wanted_count requested == t.bucket_count)) [
          | inl e ↦ inl (
              inl (
                t,
                rehash_unneeded throws requested e,
                record { table = is; value = refl; allocations = refl },
                subst (λ n. 0 < n) (==→eq (wanted_count requested) t.bucket_count e) pos,
              ))
          | inr e ↦
              subst (Outcome throws) (sym (rehash_needed throws requested e))
                (rehash_to-Outcome throws (wanted_count requested) pos)
        ]

    never_broken :
        (run : Run K T W (Unit {0}))
        → Rehash t ns cached run ⊎ BrokenOff never t ns run
        → Rehash t ns cached run
    never_broken run (inl r) = r
    never_broken run (inr (count, new, n, e, threw, broke)) = absurd (
        let c = sym (never_throws (t.nodes.value broke.node) count) ∙ broke.raised in
        ground (arith, c))

    abbrev grows : Bool
    grows = (t.bucket_count == 0) || loads.above (t.size +w 1) t.bucket_count

    maybe_grows :
        grows ≡ true
        → maybe_rehash_for_insert hash key_equal al build arrays loads t
          ≡ rehash hash key_equal al build arrays loads never
              (if t.bucket_count == 0 then default_bucket_count else (t.bucket_count * 2) % word)
              t
    unfolding maybe_rehash_for_insert
    maybe_grows e = rw (e, maybe_rehash_for_insert) refl

    maybe_stays :
        grows ≡ false → maybe_rehash_for_insert hash key_equal al build arrays loads t ≡ done tt t
    unfolding maybe_rehash_for_insert
    maybe_stays e = rw (e, maybe_rehash_for_insert) refl

    pub maybe_rehash_for_insert-Rehash :
        Rehash t ns cached (maybe_rehash_for_insert hash key_equal al build arrays loads t)
    maybe_rehash_for_insert-Rehash = elim (Bool-cases grows) [
      | inl e ↦
          subst (Rehash t ns cached) (sym (maybe_grows e)) (never_broken _ (rehash-Rehash never _))
      | inr e ↦ inl (
        t,
        maybe_stays e,
        record { table = is; value = refl; allocations = refl },
        (let z : (t.bucket_count == 0) ≡ false = ground (arith, e) in ground (arith, z)),
      )
    ]
