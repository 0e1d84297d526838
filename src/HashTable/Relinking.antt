-- ===== src/HashTable/Relinking.antt =====
-- shared_memory_hash_table.h: `relink_all_buckets` puts every node into the bucket of its key.
use native.Mathlib.Nat.{mod-lt}
use shm_next.Base.{
  ℕ, zero, suc, ◌+◌, ◌<◌, ◌≡◌, refl, Bool, true, false, ◌||◌, List, [], ◌∷◌, Option, some, has,
  Distinct, arith, ◌==◌, ltb, ◌∙◌, ap, sym, inl, inr, ◌⊎◌, length, update, update_eq, update_ne,
  Bool-cases,
}
use shm_next.HashTable.{
  Nodes, Table, bucket_of, initialize_bucket_array, push_bucket, reset_loop, relink_loop,
  relink_all_buckets, linked, interrupted, index_throws,
}
use shm_next.HashTable.Chains.{Chain, Chain-frame}
use shm_next.HashTable.Buckets.{Bucketed, Bucketed-push, Bucketed-held}

initialize_bucket_array-null :
    (count : ℕ) (array : ℕ → ℕ) (i : ℕ)
    → ltb i count ≡ true
    → initialize_bucket_array count array i ≡ 0
unfolding initialize_bucket_array
initialize_bucket_array-null zero array i li = absurd (ground (arith, li))
initialize_bucket_array-null (suc count) array i li = elim (Bool-cases (i == count)) [
  | inl e ↦ update_eq (initialize_bucket_array count array) count i 0 e
  | inr e ↦
      update_ne (initialize_bucket_array count array) count i 0 e
      ∙ initialize_bucket_array-null count array i (ground (arith, li, e))
]

module _ {K T : Type 0} where
  -- The order of iteration and the values are those of `n`.
  pub record SameOrder (n n' : Nodes K T) : Type 0 where
    pub iter_next : n'.iter_next ≡ n.iter_next
    pub iter_prev : n'.iter_prev ≡ n.iter_prev
    pub value : n'.value ≡ n.value

  reset_loop-end : (fuel c : ℕ) (n : Nodes K T) → c ≡ 0 → reset_loop (suc fuel) c n ≡ some n
  unfolding reset_loop
  reset_loop-end fuel c n h = let e : (c == 0) ≡ true = ground (arith, h) in rw (e, reset_loop) refl

  abbrev reset_links : (node : ℕ) → Nodes K T → Nodes K T
  reset_links node n = record n {
    bucket_prev = update n.bucket_prev node 0;
    bucket_next = update n.bucket_next node 0;
  }

  reset_loop-more :
      (fuel c : ℕ) (n : Nodes K T)
      → 0 < c
      → reset_loop (suc fuel) c n ≡ reset_loop fuel (n.iter_next c) (reset_links c n)
  unfolding reset_loop
  reset_loop-more fuel c n pos =
      let e : (c == 0) ≡ false = ground (arith, pos) in rw (e, reset_loop) refl

  reset_loop-SameOrder :
      (xs : List ℕ) (fuel p c : ℕ) (n : Nodes K T)
      → Chain n.iter_next n.iter_prev p c xs
      → length xs < fuel
      → (n' : Nodes K T) × (reset_loop fuel c n ≡ some n') × SameOrder n n'
  reset_loop-SameOrder xs zero p c n ch lt = absurd (omega (arith, lt))
  reset_loop-SameOrder [] (suc fuel) p c n ch lt =
      (n, reset_loop-end fuel c n ch, record { iter_next = refl; iter_prev = refl; value = refl })
  reset_loop-SameOrder (x ∷ xs) (suc fuel) p c n (e, pos, b, ch) lt =
      let (n', run, same) =
        reset_loop-SameOrder xs fuel x (n.iter_next x) (reset_links x n) ch (omega (arith, lt)) in
      (
        n',
        ap (λ z. reset_loop (suc fuel) z n) e ∙ reset_loop-more fuel x n pos ∙ run,
        record { iter_next = same.iter_next; iter_prev = same.iter_prev; value = same.value },
      )

module _ {K T : Type 0} where
  SameOrder-trans : (l m n : Nodes K T) → SameOrder l m → SameOrder m n → SameOrder l n
  SameOrder-trans l m n s t = record {
    iter_next = t.iter_next ∙ s.iter_next;
    iter_prev = t.iter_prev ∙ s.iter_prev;
    value = t.value ∙ s.value;
  }

module _ {K T : Type 0} (hash : K → ℕ) where
  relink_loop-end :
      (throws : K → Bool) (fuel c count : ℕ) (array : ℕ → ℕ) (n : Nodes K T)
      → c ≡ 0
      → relink_loop hash throws (suc fuel) c count array n ≡ some (linked array n)
  unfolding relink_loop
  relink_loop-end throws fuel c count array n h =
      let e : (c == 0) ≡ true = ground (arith, h) in rw (e, relink_loop) refl

  relink_loop-more :
      (throws : K → Bool) (fuel c count : ℕ) (array : ℕ → ℕ) (n : Nodes K T)
      → 0 < c
      → index_throws throws (n.value c) count ≡ false
      → relink_loop hash throws (suc fuel) c count array n
        ≡ relink_loop hash throws fuel
            (n.iter_next c)
            count
            (update array (bucket_of hash (n.value c) count) c)
            (push_bucket c (array (bucket_of hash (n.value c) count)) n)
  unfolding relink_loop
  relink_loop-more throws fuel c count array n pos r =
      let e : (c == 0) ≡ false = ground (arith, pos) in rw (e, r, relink_loop) refl

  relink_loop-interrupted :
      (throws : K → Bool) (fuel c count : ℕ) (array : ℕ → ℕ) (n : Nodes K T)
      → 0 < c
      → index_throws throws (n.value c) count ≡ true
      → relink_loop hash throws (suc fuel) c count array n ≡ some (interrupted n)
  unfolding relink_loop
  relink_loop-interrupted throws fuel c count array n pos r =
      let e : (c == 0) ≡ false = ground (arith, pos) in rw (e, r, relink_loop) refl

  -- What the loop leaves once the nodes `held` stand in the buckets.
  pub record Relinked (count : ℕ) (n : Nodes K T) (held : ℕ → Bool) (array : ℕ → ℕ) (n' : Nodes K T)
      : Type 0 where
    pub order : SameOrder n n'
    pub cs : ℕ → List ℕ
    pub bucketed : Bucketed hash n'.value n'.bucket_next n'.bucket_prev count array cs held

  -- The hash threw at the key of one of the nodes `xs`, and the nodes are `n'`.
  pub record Interrupted (throws : K → Bool) (count : ℕ) (n : Nodes K T) (xs : List ℕ)
      (n' : Nodes K T) : Type 0 where
    pub order : SameOrder n n'
    pub node : ℕ
    pub present : has node xs ≡ true
    pub raised : index_throws throws (n.value node) count ≡ true

  relink_loop-Relinked :
      (throws : K → Bool) (xs : List ℕ) (fuel p c count : ℕ) (array : ℕ → ℕ) (n : Nodes K T)
      (cs : ℕ → List ℕ) (held : ℕ → Bool)
      → Chain n.iter_next n.iter_prev p c xs
      → length xs < fuel
      → Distinct xs
      → ((q : ℕ)
          → has q xs ≡ true
          → (held q ≡ false) × (ltb (bucket_of hash (n.value q) count) count ≡ true))
      → Bucketed hash n.value n.bucket_next n.bucket_prev count array cs held
      → ((r : (ℕ → ℕ) × Nodes K T) × (relink_loop hash throws fuel c count array n
            ≡ some (linked r.0 r.1))
          × Relinked count n (λ q. held q || has q xs) r.0 r.1)
        ⊎ ((n' : Nodes K T) × (relink_loop hash throws fuel c count array n ≡ some (interrupted n'))
            × Interrupted throws count n xs n')
  relink_loop-Relinked throws xs zero p c count array n cs held ch lt d f b =
      absurd (omega (arith, lt))
  relink_loop-Relinked throws [] (suc fuel) p c count array n cs held ch lt d f b = inl (
    (array, n),
    relink_loop-end throws fuel c count array n ch,
    record {
      order = record { iter_next = refl; iter_prev = refl; value = refl };
      cs = cs;
      bucketed =
          Bucketed-held hash n.value _ _ count array cs held (λ q. held q || has q [])
            (λ q. ground (arith)) b;
    },
  )
  relink_loop-Relinked throws (x ∷ xs) (suc fuel) p c count array n cs held (e, pos, k, ch) lt
        (nx, d) f b =
      let (new, lx) = f x (ground arith) in
      let i = bucket_of hash (n.value x) count in
      let pushed =
        Bucketed-push hash n.value n.bucket_next n.bucket_prev count array cs held b x pos new lx in
      let step = ap (λ z. relink_loop hash throws (suc fuel) z count array n) e in
      let value : ℕ → Option (K × T) = n.value in
      elim (Bool-cases (index_throws throws (value x) count)) [
        | inl z ↦ inr (
          n,
          step ∙ relink_loop-interrupted throws fuel x count array n pos z,
          record {
            order = record { iter_next = refl; iter_prev = refl; value = refl };
            node = x;
            present = ground arith;
            raised = z;
          },
        )
        | inr z ↦
            let more = relink_loop-more throws fuel x count array n pos z in
            elim (relink_loop-Relinked throws xs fuel x (n.iter_next x) count (update array i x)
              (push_bucket x (array i) n) (update cs i (x ∷ cs i)) (λ q. (q == x) || held q) ch
              (omega (arith, lt)) d
              (λ q j. let (a, l) = f q (ground (arith, j)) in (ground (arith, a, j, nx), l))
              pushed) [
                | inl (r, run, made) ↦ inl (
                  r,
                  step ∙ more ∙ run,
                  record {
                    order = record {
                      iter_next = made.order.iter_next;
                      iter_prev = made.order.iter_prev;
                      value = made.order.value;
                    };
                    cs = made.cs;
                    bucketed =
                        Bucketed-held hash r.1.value _ _ count r.0 made.cs
                          (λ q. ((q == x) || held q) || has q xs) (λ q. held q || has q (x ∷ xs))
                          (λ q. ground arith) made.bucketed;
                  },
                )
                | inr (n', run, made) ↦ inr (
                  n',
                  step ∙ more ∙ run,
                  record {
                    order = record {
                      iter_next = made.order.iter_next;
                      iter_prev = made.order.iter_prev;
                      value = made.order.value;
                    };
                    node = made.node;
                    present = (let i = made.present in ground (arith, i));
                    raised = made.raised;
                  },
                )
              ]
      ]

  relink_all_buckets-run :
      {W : Type 0} (throws : K → Bool) (count : ℕ) (array : ℕ → ℕ) (t : Table K T W) (n : Nodes K T)
      → reset_loop (t.size + 1) t.head t.nodes ≡ some n
      → relink_all_buckets hash throws count array t
        ≡ relink_loop hash throws (t.size + 1) t.head count array n
  unfolding relink_all_buckets
  relink_all_buckets-run throws count array t n h = rw (h, relink_all_buckets) refl

  no_chains :
      (value : ℕ → Option (K × T)) (next prev : ℕ → ℕ) (count : ℕ) (array : ℕ → ℕ)
      → Bucketed hash value next prev count
          (initialize_bucket_array count array)
          (λ _. [])
          (λ _. false)
  no_chains value next prev count array = record {
    chains = λ i li. initialize_bucket_array-null count array i li;
    members = λ i q li. refl;
    distinct = λ i li. tt;
  }

  pub bucket_of-lt :
      (v : Option (K × T)) (kv : K × T) (count : ℕ)
      → v ≡ some kv
      → 0 < count
      → ltb (bucket_of hash v count) count ≡ true
  bucket_of-lt v kv count e pos =
      let m = mod-lt (hash kv.0) {m = count} pos in
      let z : (count == 0) ≡ false = ground (arith, pos) in rw e (rw z (ground (arith, m)))

  pub relink_all_buckets-Relinked :
      {W : Type 0} (throws : K → Bool) (t : Table K T W) (ns : List ℕ) (count : ℕ) (array : ℕ → ℕ)
      → Chain t.nodes.iter_next t.nodes.iter_prev 0 t.head ns
      → t.size ≡ length ns
      → Distinct ns
      → ((q : ℕ) → has q ns ≡ true → (kv : K × T) × (t.nodes.value q ≡ some kv))
      → 0 < count
      → ((r : (ℕ → ℕ) × Nodes K T) × (relink_all_buckets hash throws count
              (initialize_bucket_array count array)
              t
            ≡ some (linked r.0 r.1))
          × Relinked count t.nodes (λ q. has q ns) r.0 r.1)
        ⊎ ((n' : Nodes K T) × (relink_all_buckets hash throws count
                (initialize_bucket_array count array)
                t
              ≡ some (interrupted n'))
            × Interrupted throws count t.nodes ns n')
  relink_all_buckets-Relinked throws t ns count array ch e d f pos =
      let (n, run, same) =
        reset_loop-SameOrder ns (t.size + 1) 0 t.head t.nodes ch (omega (arith, e)) in
      let ch' =
        Chain-frame t.nodes.iter_next t.nodes.iter_prev n.iter_next n.iter_prev 0 t.head ns
          (λ q i. ap (λ g. g q) same.iter_next) (λ q i. ap (λ g. g q) same.iter_prev) ch in
      let run_all =
        relink_all_buckets-run throws count (initialize_bucket_array count array) t n run in
      elim (relink_loop-Relinked throws ns (t.size + 1) 0 t.head count
        (initialize_bucket_array count array) n (λ _. []) (λ _. false) ch' (omega (arith, e)) d
        (λ q i.
          let (kv, v) = f q i in
          (refl, bucket_of-lt (n.value q) kv count (ap (λ g. g q) same.value ∙ v) pos))
        (no_chains n.value n.bucket_next n.bucket_prev count array)) [
          | inl (r, run', made) ↦ inl (
            r,
            run_all ∙ run',
            record {
              order = SameOrder-trans t.nodes n r.1 same made.order;
              cs = made.cs;
              bucketed = made.bucketed;
            },
          )
          | inr (n', run', made) ↦ inr (
            n',
            run_all ∙ run',
            record {
              order = SameOrder-trans t.nodes n n' same made.order;
              node = made.node;
              present = made.present;
              raised =
                  ap (λ g. index_throws throws (g made.node) count) (sym same.value) ∙ made.raised;
            },
          )
        ]
