-- ===== src/HashTable/Buckets.antt =====
-- shared_memory_hash_table.h: every node stands in the chain of its key's bucket.
use mathlib.Core.Path.{subst}
use shm_next.Base.{
  ℕ, ◌<◌, ◌≡◌, refl, Bool, true, false, ◌&&◌, ◌||◌, not, List, [], ◌∷◌, ◌++◌, Option, has, Distinct,
  has-append, arith, ◌==◌, ltb, if◌then◌else◌, update, ◌∙◌, sym, ap, update_eq, update_ne,
  Bool-cases, inl, inr, ==→eq, remove-Distinct, has-split,
}
use shm_next.HashTable.{put_at, bucket_of}
use shm_next.HashTable.Chains.{
  Chain, Chain-frame, Chain-push, Chain-take, without-frame, next_without, prev_without,
}

-- where the array points to: null, or a node of that bucket
first_in :
    (next prev : ℕ → ℕ) (p c : ℕ) (xs : List ℕ)
    → Chain next prev p c xs
    → (c == 0) ≡ false
    → has c xs ≡ true
first_in next prev p c [] h e = absurd (ground (arith, h, e))
first_in next prev p c (x ∷ xs) (h, pos, k, l) e = ground (arith, h)

cut_array-here :
    (c : Bool) (array : ℕ → ℕ) (home v i : ℕ)
    → (i == home) ≡ true
    → (if c then update array home v else array) i ≡ (if c then v else array home)
cut_array-here true array home v i e = update_eq array home i v e
cut_array-here false array home v i e = ap array (==→eq i home e)

cut_array-there :
    (c : Bool) (array : ℕ → ℕ) (home v i : ℕ)
    → (i == home) ≡ false
    → (if c then update array home v else array) i ≡ array i
cut_array-there true array home v i e = update_ne array home i v e
cut_array-there false array home v i e = refl

module _ {K T : Type 0} (hash : K → ℕ) where
  -- Of the nodes `held`, each stands in one chain, `cs i` for the bucket i of its key, and no other does.
  pub record Bucketed (value : ℕ → Option (K × T)) (next prev : ℕ → ℕ) (count : ℕ) (array : ℕ → ℕ)
      (cs : ℕ → List ℕ) (held : ℕ → Bool) : Type 0 where
    pub chains : (i : ℕ) → ltb i count ≡ true → Chain next prev 0 (array i) (cs i)
    pub members :
        (i q : ℕ)
        → ltb i count ≡ true
        → has q (cs i) ≡ (held q && (bucket_of hash (value q) count == i))
    pub distinct : (i : ℕ) → ltb i count ≡ true → Distinct (cs i)

  pub Bucketed-held :
      (value : ℕ → Option (K × T)) (next prev : ℕ → ℕ) (count : ℕ) (array : ℕ → ℕ) (cs : ℕ → List ℕ)
      (held held' : ℕ → Bool)
      → ((q : ℕ) → held q ≡ held' q)
      → Bucketed value next prev count array cs held
      → Bucketed value next prev count array cs held'
  Bucketed-held value next prev count array cs held held' f b = record {
    chains = b.chains;
    members =
        λ i q li. b.members i q li ∙ ap (λ h. h && (bucket_of hash (value q) count == i)) (f q);
    distinct = b.distinct;
  }

  pub Bucketed-frame :
      (value value' : ℕ → Option (K × T)) (next prev next' prev' : ℕ → ℕ) (count : ℕ)
      (array : ℕ → ℕ) (cs : ℕ → List ℕ) (held : ℕ → Bool)
      → ((q : ℕ) → held q ≡ true → (value' q ≡ value q) × (next' q ≡ next q) × (prev' q ≡ prev q))
      → Bucketed value next prev count array cs held
      → Bucketed value' next' prev' count array cs held
  Bucketed-frame value value' next prev next' prev' count array cs held f b =
      let old : (i q : ℕ) → ltb i count ≡ true → has q (cs i) ≡ true → held q ≡ true =
        λ i q li m. let x = b.members i q li in ground (arith, x, m) in
      record {
        chains = λ i li.
            Chain-frame next prev next' prev' 0 (array i) (cs i) (λ q m. (f q (old i q li m)).1)
              (λ q m. (f q (old i q li m)).2) (b.chains i li);
        members = λ i q li. elim (Bool-cases (held q)) [
          | inl h ↦
              b.members i q li ∙ ap (λ v. held q && (bucket_of hash v count == i)) (sym (f q h).0)
          | inr h ↦ let x = b.members i q li in ground (arith, x, h)
        ];
        distinct = b.distinct;
      }

  module _ (value : ℕ → Option (K × T)) (next prev : ℕ → ℕ) (count : ℕ) (array : ℕ → ℕ)
      (cs : ℕ → List ℕ) (held : ℕ → Bool) (b : Bucketed value next prev count array cs held)
      (node : ℕ) where
    abbrev home : ℕ
    home = bucket_of hash (value node) count

    -- Two chains share no node.
    pub chains-apart :
        (i j q r : ℕ)
        → ltb i count ≡ true
        → ltb j count ≡ true
        → (i == j) ≡ false
        → has q (cs i) ≡ true
        → has r (cs j) ≡ true
        → (q == r) ≡ false
    chains-apart i j q r li lj ne m m' = elim (Bool-cases (q == r)) [
      | inr e ↦ e
      | inl e ↦
          let here : has q (cs j) ≡ true =
            subst (λ z. has z (cs j) ≡ true) (sym (==→eq q r e)) m' in
          let x = b.members i q li in
          let y = b.members j q lj in absurd (ground (arith, x, y, here, m, ne))
    ]

    push-other :
        (i q : ℕ)
        → ltb home count ≡ true
        → ltb i count ≡ true
        → (i == home) ≡ false
        → has q (cs i) ≡ true
        → (q == node) ≡ false
        → put_at (array home) node (update prev node 0) q ≡ prev q
    push-other i q lh li ne m out = elim (Bool-cases (array home == 0)) [
      | inl e ↦ ground (arith, e, out)
      | inr e ↦
          let f = first_in next prev 0 (array home) (cs home) (b.chains home lh) e in
          let away = chains-apart i home q (array home) li lh ne m f in ground (arith, e, out, away)
    ]

    not_new :
        (i q : ℕ)
        → held node ≡ false
        → ltb i count ≡ true
        → has q (cs i) ≡ true
        → (q == node) ≡ false
    not_new i q new li m = elim (Bool-cases (q == node)) [
      | inr e ↦ e
      | inl e ↦
          let here : held q ≡ false = subst (λ r. held r ≡ false) (sym (==→eq q node e)) new in
          let x = b.members i q li in absurd (ground (arith, x, here, m))
    ]

    pub Bucketed-push :
        0 < node
        → held node ≡ false
        → ltb home count ≡ true
        → Bucketed value
            (update next node (array home))
            (put_at (array home) node (update prev node 0))
            count
            (update array home node)
            (update cs home (node ∷ cs home))
            (λ q. (q == node) || held q)
    Bucketed-push pos new lh = record {
      chains = λ i li. elim (Bool-cases (i == home)) [
        | inl e ↦
            let out = b.members home node lh in
            rw e (
              Chain-push next prev (array home) node (cs home) (b.chains home lh)
                (b.distinct home lh) (ground (arith, out, new)) pos)
        | inr e ↦ rw e (
            Chain-frame next prev (update next node (array home))
              (put_at (array home) node (update prev node 0)) 0 (array i) (cs i)
              (λ q m. update_ne next node q (array home) (not_new i q new li m))
              (λ q m. push-other i q lh li e m (not_new i q new li m)) (b.chains i li))
      ];
      members = λ i q li. elim (Bool-cases (q == node)) [
        | inl f ↦
            let z : bucket_of hash (value q) count ≡ home =
              ap (λ r. bucket_of hash (value r) count) (==→eq q node f) in
            let x = b.members i q li in
            let y : held q ≡ false = subst (λ r. held r ≡ false) (sym (==→eq q node f)) new in
            elim (Bool-cases (i == home)) [
              | inl e ↦ rw e (ground (arith, e, f, z))
              | inr e ↦ rw e (ground (arith, e, f, z, x, y))
            ]
        | inr f ↦ elim (Bool-cases (i == home)) [
          | inl e ↦ let x = b.members home q lh in rw e (ground (arith, e, f, x))
          | inr e ↦ let x = b.members i q li in rw e (ground (arith, e, f, x))
        ]
      ];
      distinct = λ i li. elim (Bool-cases (i == home)) [
        | inl e ↦
            let out = b.members home node lh in rw e (ground (arith, out, new), b.distinct home lh)
        | inr e ↦ rw e (b.distinct i li)
      ];
    }

    cut-Bucketed :
        (ys zs : List ℕ)
        → cs home ≡ ys ++ (node ∷ zs)
        → ltb home count ≡ true
        → Bucketed value
            (next_without next prev node)
            (prev_without next prev node)
            count
            (if prev node == 0 then update array home (next node) else array)
            (update cs home (ys ++ zs))
            (λ q. not (q == node) && held q)
    cut-Bucketed ys zs e lh =
        let ch : Chain next prev 0 (array home) (ys ++ (node ∷ zs)) =
          subst (Chain next prev 0 (array home)) e (b.chains home lh) in
        let d : Distinct (ys ++ (node ∷ zs)) = subst Distinct e (b.distinct home lh) in
        let (d', out) = remove-Distinct node ys zs d in
        let c' : ℕ → ℕ = if prev node == 0 then update array home (next node) else array in
        record {
          chains = λ i li. elim (Bool-cases (i == home)) [
            | inl f ↦
                let same : c' i ≡ (if prev node == 0 then next node else array home) =
                  cut_array-here (prev node == 0) array home (next node) i f in
                rw f (
                  subst
                    (λ k.
                      Chain (next_without next prev node) (prev_without next prev node) 0 k
                        (ys ++ zs))
                    (sym same) (Chain-take next prev (array home) node ys zs ch d))
            | inr f ↦
                let same : c' i ≡ array i =
                  cut_array-there (prev node == 0) array home (next node) i f in
                let away : (q r : ℕ)
                    → has q (cs i) ≡ true
                    → has r (ys ++ (node ∷ zs)) ≡ true
                    → (q == r) ≡ false =
                  λ q r m m'.
                    chains-apart i home q r li lh f m (subst (λ l. has r l ≡ true) (sym e) m') in
                rw f (
                  subst
                    (λ k.
                      Chain (next_without next prev node) (prev_without next prev node) 0 k (cs i))
                    (sym same)
                    (Chain-frame next prev (next_without next prev node)
                      (prev_without next prev node) 0 (array i) (cs i)
                      (λ q m.
                        (without-frame next prev (array home) node q ys zs ch (λ r. away q r m)).0)
                      (λ q m.
                        (without-frame next prev (array home) node q ys zs ch (λ r. away q r m)).1)
                      (b.chains i li)))
          ];
          members = λ i q li.
              let z : (q == node) ≡ true → bucket_of hash (value q) count ≡ home =
                λ g. ap (λ r. bucket_of hash (value r) count) (==→eq q node g) in
              elim (Bool-cases (i == home)) [
                | inl f ↦
                    let y : has q (ys ++ (node ∷ zs))
                        ≡ (held q && (bucket_of hash (value q) count == home)) =
                      ap (has q) (sym e) ∙ b.members home q lh in
                    let a = has-append q ys (node ∷ zs) in
                    let a' = has-append q ys zs in
                    elim (Bool-cases (q == node)) [
                      | inl g ↦
                          let o : has q (ys ++ zs) ≡ false =
                            subst (λ r. has r (ys ++ zs) ≡ false) (sym (==→eq q node g)) out in
                          rw f (ground (arith, g, o))
                      | inr g ↦ rw f (ground (arith, f, g, y, a, a'))
                    ]
                | inr f ↦ let y = b.members i q li in rw f (ground (arith, f, y, z))
              ];
          distinct = λ i li. elim (Bool-cases (i == home)) [
            | inl f ↦ rw f d'
            | inr f ↦ rw f (b.distinct i li)
          ];
        }

    -- The node leaves its chain.
    pub Bucketed-cut :
        held node ≡ true
        → ltb home count ≡ true
        → (cs' : ℕ → List ℕ) × Bucketed value
            (next_without next prev node)
            (prev_without next prev node)
            count
            (if prev node == 0 then update array home (next node) else array)
            cs'
            (λ q. not (q == node) && held q)
    Bucketed-cut here lh =
        let x = b.members home node lh in
        let (ys, zs, e) = has-split node (cs home) (ground (arith, x, here)) in
        (update cs home (ys ++ zs), cut-Bucketed ys zs e lh)
