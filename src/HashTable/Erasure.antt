-- ===== src/HashTable/Erasure.antt =====
-- shared_memory_hash_table.h: `erase` on a well-formed table.
use mathlib.Core.Path.{subst}
use shm_next.Base.{
  ℕ, ◌≡◌, refl, Bool, true, false, ◌&&◌, ◌||◌, not, List, [], ◌∷◌, ◌++◌, some, has, Distinct,
  has-append, arith, ◌==◌, ==→eq, if◌then◌else◌, ◌∙◌, sym, ap, last_or, first_or, inl, inr, ◌⊎◌,
  length-append, remove-Distinct, has-split, Bool-cases,
}
use shm_next.NodePool.{NodeAllocator}
use shm_next.NodePool.Laws.{destroy-IsPool}
use shm_next.HashTable.{Table, BucketAllocator, Loads, find_node, unlink_bucket, unlink_iteration}
use shm_next.HashTable.Calls.{done, erase_node, destroy_node, erase_key, contains}
use shm_next.HashTable.Chains.{Chain-at, Chain-take, Chain-has_null}
use shm_next.HashTable.Buckets.{Bucketed-cut, Bucketed-held}
use shm_next.HashTable.Invariant.{IsHash, IsTable}
use shm_next.HashTable.Finding.{find_node-Found, home-lt}

last_or-without :
    (p node : ℕ) (ys zs : List ℕ)
    → has 0 (ys ++ (node ∷ zs)) ≡ false
    → (if first_or 0 zs == 0 then last_or p ys else last_or p (ys ++ (node ∷ zs)))
      ≡ last_or p (ys ++ zs)
last_or-without p node [] [] z = refl
last_or-without p node [] (x ∷ zs) z = ground (arith, z)
last_or-without p node (y ∷ ys) zs z = last_or-without y node ys zs (ground (arith, z))

held-without :
    (node q : ℕ) (ys zs : List ℕ)
    → has node (ys ++ zs) ≡ false
    → (not (q == node) && has q (ys ++ (node ∷ zs))) ≡ has q (ys ++ zs)
held-without node q ys zs out =
    let a = has-append q ys (node ∷ zs) in
    let a' = has-append q ys zs in
    elim (Bool-cases (q == node)) [
      | inl e ↦
          let o : has q (ys ++ zs) ≡ false =
            subst (λ r. has r (ys ++ zs) ≡ false) (sym (==→eq q node e)) out in
          ground (arith, e, o)
      | inr e ↦ ground (arith, e, a, a')
    ]

module _ {K T W : Type 0} (hash : K → ℕ) (key_equal : K → K → Bool) (al : NodeAllocator W)
    (build : K × T → ℕ → W → Bool × W) (arrays : BucketAllocator W) (loads : Loads) where
  -- `erase_node` takes a node out of a well-formed table: the others keep their order, their values and
  -- their buckets, and the node is the first one that its pool keeps.
  pub erase_node-IsTable :
      (t : Table K T W) (node : ℕ) (ys zs cached : List ℕ)
      → IsTable hash key_equal t (ys ++ (node ∷ zs)) cached
      → IsTable hash key_equal
          (erase_node hash key_equal al build arrays loads node t)
          (ys ++ zs)
          (node ∷ cached)
  unfolding erase_node unlink_bucket unlink_iteration destroy_node
  erase_node-IsTable t node ys zs cached is =
      let ns = ys ++ (node ∷ zs) in
      let a : (q : ℕ) → has q ns ≡ (has q ys || has q (node ∷ zs)) =
        λ q. has-append q ys (node ∷ zs) in
      let a' : (q : ℕ) → has q (ys ++ zs) ≡ (has q ys || has q zs) = λ q. has-append q ys zs in
      let here : has node ns ≡ true = let b = a node in ground (arith, b) in
      let sub : (q : ℕ) → has q (ys ++ zs) ≡ true → has q ns ≡ true =
        λ q i. let b = a q in let b' = a' q in ground (arith, i, b, b') in
      let z = Chain-has_null t.nodes.iter_next t.nodes.iter_prev 0 t.head ns is.iteration in
      let (d, out) = remove-Distinct node ys zs is.distinct in
      let (before, after) =
        Chain-at t.nodes.iter_next t.nodes.iter_prev 0 t.head node ys zs is.iteration in
      let e = length-append ys zs in
      let e' = length-append ys (node ∷ zs) in
      let (cs', cut) =
        Bucketed-cut hash t.nodes.value t.nodes.bucket_next t.nodes.bucket_prev t.bucket_count
          t.array is.cs (λ q. has q ns) is.bucketed node here
          (home-lt hash key_equal t ns cached is node here) in
      let ap_node = is.apart node in
      record {
        iteration =
            Chain-take t.nodes.iter_next t.nodes.iter_prev t.head node ys zs is.iteration
              is.distinct;
        tail =
            ap (λ m. if m == 0 then t.nodes.iter_prev node else t.tail) after
            ∙ ap (λ l. if first_or 0 zs == 0 then l else t.tail) before
            ∙ ap (λ l. if first_or 0 zs == 0 then last_or 0 ys else l) is.tail
            ∙ last_or-without 0 node ys zs z;
        cs = cs';
        bucketed =
            Bucketed-held hash t.nodes.value _ _ t.bucket_count _ cs'
              (λ q. not (q == node) && has q ns) (λ q. has q (ys ++ zs))
              (λ q. held-without node q ys zs out) cut;
        distinct = d;
        size = ground (arith, is.size, is.bounded, e, e');
        bounded = omega (arith, is.bounded, e, e');
        pool =
            destroy-IsPool al node t.node_pool cached is.pool (ground (arith, here, z))
              (ground (arith, ap_node, here)) (omega (arith, is.bounded));
        apart = λ q i.
            let b = a q in let b' = a' q in let c = is.apart q in ground (arith, i, b, b', c, out);
        entries = λ q i. is.entries q (sub q i);
        keys = λ p q x y i j. is.keys p q x y (sub p i) (sub q j);
        present = is.present;
        empty = λ c. absurd (let n = is.empty c in ground (arith, here, n));
      }

  erase_key-run :
      (key : K) (t : Table K T W) (node : ℕ)
      → find_node hash key_equal key t ≡ some node
      → erase_key hash key_equal al build arrays loads key t ≡ (
          if node == 0
          then done 0 t
          else done 1 (erase_node hash key_equal al build arrays loads node t))
  unfolding erase_key
  erase_key-run key t node h = rw (h, erase_key) refl

  contains-run :
      (key : K) (t : Table K T W) (node : ℕ)
      → find_node hash key_equal key t ≡ some node
      → contains hash key_equal al build arrays loads key t ≡ some (not (node == 0))
  unfolding contains
  contains-run key t node h = rw (h, contains) refl

  -- What `erase_key` leaves: the same table, where no node has the key; or a table without the one node
  -- that had it.
  abbrev pub Erased : K → Table K T W → (ns cached : List ℕ) → Type 0
  Erased key t ns cached =
      ((erase_key hash key_equal al build arrays loads key t ≡ done 0 t)
        × ((q : ℕ) (kv : K × T)
            → has q ns ≡ true
            → t.nodes.value q ≡ some kv
            → key_equal kv.0 key ≡ false))
      ⊎ ((node : ℕ) × (ys zs : List ℕ) × (ns ≡ ys ++ (node ∷ zs))
          × (erase_key hash key_equal al build arrays loads key t
              ≡ done 1 (erase_node hash key_equal al build arrays loads node t))
          × ((kv : K × T) × (t.nodes.value node ≡ some kv) × (key_equal kv.0 key ≡ true))
          × IsTable hash key_equal (erase_node hash key_equal al build arrays loads node t)
              (ys ++ zs) (node ∷ cached))

  -- A node with the key of `node` is `node`, and that one is erased.
  only :
      (t : Table K T W) (ns cached : List ℕ) (node : ℕ) (ys zs : List ℕ)
      → ns ≡ ys ++ (node ∷ zs)
      → IsTable hash key_equal t ns cached
      → IsHash hash key_equal
      → (key : K) (kv : K × T) (q : ℕ) (b : K × T) → t.nodes.value node ≡ some kv
      → key_equal kv.0 key ≡ true
      → has q (ys ++ zs) ≡ true
      → (erase_node hash key_equal al build arrays loads node t).nodes.value q ≡ some b
      → key_equal b.0 key ≡ false
  unfolding erase_node unlink_bucket unlink_iteration destroy_node
  only t ns cached node ys zs e is eq key kv q b v k i w = elim (Bool-cases (key_equal b.0 key)) [
    | inr f ↦ f
    | inl f ↦
        let a : (r : ℕ) → has r ns ≡ (has r ys || has r (node ∷ zs)) =
          λ r. ap (has r) e ∙ has-append r ys (node ∷ zs) in
        let a' = has-append q ys zs in
        let aq = a q in
        let an = a node in
        let out = (remove-Distinct node ys zs (subst Distinct e is.distinct)).1 in
        let same : q ≡ node =
          is.keys q node b kv (ground (arith, i, a', aq)) (ground (arith, an)) w v
            (eq.transitive b.0 key kv.0 f (eq.symmetric kv.0 key k)) in
        absurd
          (let o = subst (λ r. has r (ys ++ zs) ≡ false) (sym same) out in ground (arith, i, o))
  ]

  absent-contains :
      (key : K) (t : Table K T W) (ns cached : List ℕ)
      → IsTable hash key_equal t ns cached
      → IsHash hash key_equal
      → ((q : ℕ) (kv : K × T)
          → has q ns ≡ true
          → t.nodes.value q ≡ some kv
          → key_equal kv.0 key ≡ false)
      → contains hash key_equal al build arrays loads key t ≡ some false
  absent-contains key t ns cached is eq away =
      let (r, run, found) = find_node-Found hash key_equal t ns cached is eq key in
      elim found [
        | inl (z, _) ↦ contains-run key t r run ∙ ap (λ m. some (not (m == 0))) z
        | inr (i, kv, v, k) ↦ absurd (let a = away r kv i v in ground (arith, a, k))
      ]

  module _ (t : Table K T W) (ns cached : List ℕ) (is : IsTable hash key_equal t ns cached)
      (eq : IsHash hash key_equal) (key : K) where
    pub erase_key-Erased : Erased key t ns cached
    erase_key-Erased =
        let (r, run, found) = find_node-Found hash key_equal t ns cached is eq key in
        elim found [
          | inl (z, away) ↦ inl (
            erase_key-run key t r run
                ∙ ap
                    (λ m.
                      if m == 0
                      then done 0 t
                      else done 1 (erase_node hash key_equal al build arrays loads m t))
                    z,
            away,
          )
          | inr (i, kv, v, k) ↦
              let (ys, zs, e) = has-split r ns i in
              let null =
                Chain-has_null t.nodes.iter_next t.nodes.iter_prev 0 t.head ns is.iteration in
              let pos : (r == 0) ≡ false = ground (arith, i, null) in
              inr (
                r,
                ys,
                zs,
                e,
                erase_key-run key t r run
                    ∙ ap
                        (λ b.
                          if b
                          then done 0 t
                          else done 1 (erase_node hash key_equal al build arrays loads r t))
                        pos,
                (kv, v, k),
                erase_node-IsTable t r ys zs cached
                    (subst (λ l. IsTable hash key_equal t l cached) e is),
              )
        ]

    -- `erase_key` on a well-formed table returns, and what it leaves does not contain the key. Equal keys
    -- have the same hash, and equality of keys is symmetric and transitive.
    pub contains-erase_key :
        (n : ℕ) × (u : Table K T W) × (erase_key hash key_equal al build arrays loads key t
          ≡ done n u)
        × (contains hash key_equal al build arrays loads key u ≡ some false)
    contains-erase_key = elim erase_key-Erased [
      | inl (run, away) ↦ (0, t, run, absent-contains key t ns cached is eq away)
      | inr (node, ys, zs, e, run, (kv, v, k), is') ↦ (
        1,
        erase_node hash key_equal al build arrays loads node t,
        run,
        absent-contains key (erase_node hash key_equal al build arrays loads node t) (ys ++ zs)
            (node ∷ cached) is' eq
            (λ q b i w. only t ns cached node ys zs e is eq key kv q b v k i w),
      )
    ]
