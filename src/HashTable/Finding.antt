-- ===== src/HashTable/Finding.antt =====
-- shared_memory_hash_table.h: what `find_node` gives in a well-formed table.
use mathlib.Core.Option.{some-injective}
use native.Mathlib.Nat.{mod-lt}
use shm_next.Base.{
  ℕ, zero, suc, ◌+◌, ◌%◌, ◌<◌, ◌≡◌, refl, Bool, true, false, List, [], ◌∷◌, Option, some, has,
  arith, ◌==◌, ==→eq, ltb, if◌then◌else◌, ◌∙◌, sym, ap, Bool-cases, inl, inr, ◌⊎◌, length,
  length-le_of_has,
}
use shm_next.HashTable.{Nodes, Table, bucket_of, find_loop, find_node}
use shm_next.HashTable.Chains.{Chain}
use shm_next.HashTable.Invariant.{IsHash, IsTable}

module _ {K T : Type 0} (hash : K → ℕ) (key_equal : K → K → Bool) where
  -- What a search for a key gives: null, where no node of `xs` has it, or the node of `xs` that has it.
  abbrev pub Found : K → (ℕ → Option (K × T)) → List ℕ → ℕ → Type 0
  Found key value xs r =
      ((r ≡ 0)
        × ((q : ℕ) (kv : K × T) → has q xs ≡ true → value q ≡ some kv → key_equal kv.0 key ≡ false))
      ⊎ ((has r xs ≡ true) × (kv : K × T) × (value r ≡ some kv) × (key_equal kv.0 key ≡ true))

  find_loop-end :
      (fuel c : ℕ) (key : K) (n : Nodes K T)
      → c ≡ 0
      → find_loop hash key_equal (suc fuel) c key n ≡ some 0
  unfolding find_loop
  find_loop-end fuel c key n h =
      let e : (c == 0) ≡ true = ground (arith, h) in rw (e, find_loop) refl

  find_loop-step :
      (fuel x : ℕ) (key : K) (n : Nodes K T) (kv : K × T)
      → 0 < x
      → n.value x ≡ some kv
      → find_loop hash key_equal (suc fuel) x key n ≡ (
          if key_equal kv.0 key
          then some x
          else find_loop hash key_equal fuel (n.bucket_next x) key n)
  unfolding find_loop
  find_loop-step fuel x key n kv pos h =
      let e : (x == 0) ≡ false = ground (arith, pos) in rw (e, h, find_loop) refl

  other_key :
      (key : K) (n : Nodes K T) (x q : ℕ) (kv kv' : K × T)
      → n.value x ≡ some kv
      → n.value q ≡ some kv'
      → (q == x) ≡ true
      → key_equal kv.0 key ≡ false
      → key_equal kv'.0 key ≡ false
  other_key key n x q kv kv' v v' e k =
      let same : kv' ≡ kv = some-injective kv' kv (sym v' ∙ ap n.value (==→eq q x e) ∙ v) in
      ap (λ z. key_equal z.0 key) same ∙ k

  find_loop-Found :
      (xs : List ℕ) (fuel p c : ℕ) (key : K) (n : Nodes K T)
      → Chain n.bucket_next n.bucket_prev p c xs
      → length xs < fuel
      → ((q : ℕ) → has q xs ≡ true → (kv : K × T) × (n.value q ≡ some kv))
      → (r : ℕ) × (find_loop hash key_equal fuel c key n ≡ some r) × Found key n.value xs r
  find_loop-Found xs zero p c key n ch lt f = absurd (omega (arith, lt))
  find_loop-Found [] (suc fuel) p c key n ch lt f =
      (0, find_loop-end fuel c key n ch, inl (refl, λ q kv i. absurd (ground (arith, i))))
  find_loop-Found (x ∷ xs) (suc fuel) p c key n (e, pos, b, ch) lt f =
      let (kv, v) = f x (ground arith) in
      let step =
        ap (λ z. find_loop hash key_equal (suc fuel) z key n) e
        ∙ find_loop-step fuel x key n kv pos v in
      elim (Bool-cases (key_equal kv.0 key)) [
        | inl k ↦ (
          x,
          step
              ∙ ap
                  (λ z. if z then some x else find_loop hash key_equal fuel (n.bucket_next x) key n)
                  k,
          inr (ground arith, kv, v, k),
        )
        | inr k ↦
            let (r, run, found) =
              find_loop-Found xs fuel x (n.bucket_next x) key n ch (omega (arith, lt))
                (λ q i. f q (ground (arith, i))) in
            (
              r,
              step
                  ∙ ap
                      (λ z.
                        if z then some x else find_loop hash key_equal fuel (n.bucket_next x) key n)
                      k
                  ∙ run,
              elim found [
                | inl (z, away) ↦ inl (
                  z,
                  λ q kv' i v'. elim (Bool-cases (q == x)) [
                    | inl e' ↦ other_key key n x q kv kv' v v' e' k
                    | inr e' ↦ away q kv' (ground (arith, i, e')) v'
                  ],
                )
                | inr (i, kv', v', k') ↦ inr (ground (arith, i), kv', v', k')
              ],
            )
      ]

  find_node-zero :
      {W : Type 0} (key : K) (t : Table K T W)
      → (t.bucket_count == 0) ≡ true
      → find_node hash key_equal key t ≡ some 0
  unfolding find_node
  find_node-zero key t e = rw (e, find_node) refl

  find_node-loop :
      {W : Type 0} (key : K) (t : Table K T W)
      → (t.bucket_count == 0) ≡ false
      → find_node hash key_equal key t
        ≡ find_loop hash key_equal (t.size + 1) (t.array (hash key % t.bucket_count)) key t.nodes
  unfolding find_node
  find_node-loop key t e = rw (e, find_node) refl

  module _ {W : Type 0} (t : Table K T W) (ns cached : List ℕ)
      (is : IsTable hash key_equal t ns cached) where
    index-lt :
        (key : K)
        → (t.bucket_count == 0) ≡ false
        → ltb (hash key % t.bucket_count) t.bucket_count ≡ true
    index-lt key e =
        let m = mod-lt (hash key) {m = t.bucket_count} (ground (arith, e)) in ground (arith, m)

    -- The bucket of a node of the table is one of its buckets.
    pub home-lt :
        (node : ℕ)
        → has node ns ≡ true
        → ltb (bucket_of hash (t.nodes.value node) t.bucket_count) t.bucket_count ≡ true
    home-lt node here = elim (Bool-cases (t.bucket_count == 0)) [
      | inl e ↦ absurd (let n = is.empty (==→eq t.bucket_count 0 e) in ground (arith, here, n))
      | inr e ↦
          let (kv, v) = is.entries node here in
          rw (ap (λ z. bucket_of hash z t.bucket_count) v) (rw e (index-lt kv.0 e))
    ]

    chained :
        (key : K) (q : ℕ)
        → (t.bucket_count == 0) ≡ false
        → has q (is.cs (hash key % t.bucket_count)) ≡ true
        → has q ns ≡ true
    chained key q e i =
        let m = is.bucketed.members (hash key % t.bucket_count) q (index-lt key e) in
        ground (arith, i, m)

    -- A node whose key equals `key` stands in the chain of `key`.
    in_chain :
        IsHash hash key_equal
        → (key : K) (q : ℕ) (kv : K × T) → (t.bucket_count == 0) ≡ false
        → has q ns ≡ true
        → t.nodes.value q ≡ some kv
        → key_equal kv.0 key ≡ true
        → has q (is.cs (hash key % t.bucket_count)) ≡ true
    in_chain eq key q kv e i v k =
        let m = is.bucketed.members (hash key % t.bucket_count) q (index-lt key e) in
        let b : bucket_of hash (t.nodes.value q) t.bucket_count ≡ hash key % t.bucket_count =
          ap (λ z. bucket_of hash z t.bucket_count) v
          ∙ (rw e (ap (λ z. z % t.bucket_count) (eq.same_hash kv.0 key k))) in
        ground (arith, m, i, b)

    not_equal :
        (key : K) (q : ℕ) (kv : K × T)
        → (key_equal kv.0 key ≡ true → ⊥)
        → key_equal kv.0 key ≡ false
    not_equal key q kv f = elim (Bool-cases (key_equal kv.0 key)) [
      | inl k ↦ absurd (f k)
      | inr k ↦ k
    ]

    -- On a well-formed table `find_node` returns: null, where no node has a key that equals the given one,
    -- or a node of the table whose key does. Equal keys have the same hash.
    pub find_node-Found :
        IsHash hash key_equal
        → (key : K)
        → (r : ℕ) × (find_node hash key_equal key t ≡ some r) × Found key t.nodes.value ns r
    find_node-Found eq key = elim (Bool-cases (t.bucket_count == 0)) [
      | inl e ↦
          let none_here = is.empty (==→eq t.bucket_count 0 e) in
          (0, find_node-zero key t e, inl (refl, λ q kv i v. absurd (ground (arith, none_here, i))))
      | inr e ↦
          let xs = is.cs (hash key % t.bucket_count) in
          let le =
            length-le_of_has xs ns
              (is.bucketed.distinct (hash key % t.bucket_count) (index-lt key e))
              (λ q i. chained key q e i) in
          let (r, run, found) =
            find_loop-Found xs (t.size + 1) 0 (t.array (hash key % t.bucket_count)) key t.nodes
              (is.bucketed.chains (hash key % t.bucket_count) (index-lt key e))
              (omega (arith, le, is.size)) (λ q i. is.entries q (chained key q e i)) in
          (
            r,
            find_node-loop key t e ∙ run,
            elim found [
              | inl (z, away) ↦ inl (
                z,
                λ q kv i v. not_equal key q kv λ k.
                    absurd
                      (let a = away q kv (in_chain eq key q kv e i v k) v in ground (arith, a, k)),
              )
              | inr (i, kv, v, k) ↦ inr (chained key r e i, kv, v, k)
            ],
          )
    ]
