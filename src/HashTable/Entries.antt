-- ===== src/HashTable/Entries.antt =====
-- shared_memory_hash_table.h: a well-formed table with one node more, behind the others.
use mathlib.Core.Path.{subst}
use shm_next.Base.{
  ℕ, ◌+◌, ◌≤◌, ◌<◌, ◌≡◌, refl, Bool, true, false, ◌||◌, List, [], ◌∷◌, ◌++◌, some, has, Distinct,
  has-append, arith, ◌==◌, ==→eq, if◌then◌else◌, ◌∙◌, sym, ap, last_or, first_or, inl, inr, ◌⊎◌,
  length, length-append, word, insert-Distinct, update, update_eq, update_ne, Bool-cases, ◌+w◌,
  last_or-member, has-ne,
}
use mathlib.Core.Option.{some-injective}
use shm_next.NodePool.{Pool}
use shm_next.NodePool.Laws.{IsPool}
use shm_next.HashTable.{Nodes, Table, bucket_of, loosen, push_bucket, push_iteration}
use shm_next.HashTable.Chains.{Chain, Chain-append, Chain-first, Chain-has_null}
use shm_next.HashTable.Buckets.{Bucketed, Bucketed-push, Bucketed-frame, Bucketed-held}
use shm_next.HashTable.Invariant.{IsHash, IsTable}
use shm_next.HashTable.Relinking.{bucket_of-lt}

-- the nodes with the new node `node`, whose links are null
abbrev with_node : {K T : Type 0} → (node : ℕ) → K × T → Nodes K T → Nodes K T
with_node node kv n = record (loosen node n) { value = update n.value node (some kv) }

last_or-nonzero : (x : ℕ) (xs : List ℕ) → has 0 (x ∷ xs) ≡ false → (last_or x xs == 0) ≡ false
last_or-nonzero x [] z = ground (arith, z)
last_or-nonzero x (y ∷ ys) z = last_or-nonzero y ys (ground (arith, z))

last_or-end : (p node : ℕ) (xs : List ℕ) → node ≡ last_or p (xs ++ (node ∷ []))
last_or-end p node [] = refl
last_or-end p node (x ∷ xs) = last_or-end x node xs

Distinct-nil : (xs : List ℕ) → Distinct xs → Distinct (xs ++ [])
Distinct-nil [] d = d
Distinct-nil (x ∷ xs) (n, d) =
    (let h = has-append x xs [] in ground (arith, h, n), Distinct-nil xs d)

first_or-last :
    (node : ℕ) (xs : List ℕ)
    → has 0 xs ≡ false
    → (if last_or 0 xs == 0 then node else first_or 0 xs) ≡ first_or node xs
first_or-last node [] z = refl
first_or-last node (x ∷ xs) z = let e = last_or-nonzero x xs z in rw e refl

module _ {K T W : Type 0} (hash : K → ℕ) (key_equal : K → K → Bool) where
  abbrev home : (node : ℕ) → K × T → Table K T W → ℕ
  home node kv t = bucket_of hash (update t.nodes.value node (some kv) node) t.bucket_count

  -- the table with the new node
  abbrev pub with_entry : (node : ℕ) → K × T → Pool W → Table K T W → Table K T W
  with_entry node kv pool t = record t {
    nodes =
        push_iteration node t.tail
          (push_bucket node (t.array (home node kv t)) (with_node node kv t.nodes));
    array = update t.array (home node kv t) node;
    head = if t.tail == 0 then node else t.head;
    tail = node;
    node_pool = pool;
    size = t.size +w 1;
  }

  module _ (t : Table K T W) (ns cached left : List ℕ) (is : IsTable hash key_equal t ns cached)
      (kv : K × T) (node : ℕ) (pool : Pool W) (out : has node (0 ∷ ns) ≡ false)
      (buckets : 0 < t.bucket_count) where
    entry-Bucketed :
        (cs : ℕ → List ℕ) × Bucketed hash
          (with_node node kv t.nodes).value
          (with_entry node kv pool t).nodes.bucket_next
          (with_entry node kv pool t).nodes.bucket_prev
          t.bucket_count
          (with_entry node kv pool t).array
          cs
          (λ q. has q (ns ++ (node ∷ [])))
    entry-Bucketed =
        let n = with_node node kv t.nodes in
        let e : n.value node ≡ some kv =
          update_eq t.nodes.value node node (some kv) (ground arith) in
        let lh = bucket_of-lt hash (n.value node) kv t.bucket_count e buckets in
        let b =
          Bucketed-frame hash t.nodes.value n.value t.nodes.bucket_next t.nodes.bucket_prev
            n.bucket_next n.bucket_prev t.bucket_count t.array is.cs (λ q. has q ns)
            (λ q i.
              let ne = has-ne q node ns i (ground (arith, out)) in
              (
                update_ne t.nodes.value node q (some kv) ne,
                update_ne t.nodes.bucket_next node q 0 ne,
                update_ne t.nodes.bucket_prev node q 0 ne,
              ))
            is.bucketed in
        let pushed =
          Bucketed-push hash n.value n.bucket_next n.bucket_prev t.bucket_count t.array is.cs
            (λ q. has q ns) b node (ground (arith, out)) (ground (arith, out)) lh in
        (
          _,
          Bucketed-held hash n.value _ _ t.bucket_count _ _ (λ q. (q == node) || has q ns)
              (λ q. has q (ns ++ (node ∷ [])))
              (λ q. let a = has-append q ns (node ∷ []) in ground (arith, a)) pushed,
        )

    entry-iteration :
        Chain
          (with_entry node kv pool t).nodes.iter_next
          (with_entry node kv pool t).nodes.iter_prev
          0
          (with_entry node kv pool t).head
          (ns ++ (node ∷ []))
    entry-iteration =
        let n = with_node node kv t.nodes in
        let m = (with_entry node kv pool t).nodes in
        let z = Chain-has_null t.nodes.iter_next t.nodes.iter_prev 0 t.head ns is.iteration in
        let c =
          Chain-append t.nodes.iter_next t.nodes.iter_prev m.iter_next m.iter_prev 0 t.head node
            t.tail ns is.iteration is.distinct (ground (arith, out)) is.tail
            (λ q i ne. let a = has-ne q node ns i (ground (arith, out)) in ground (arith, a, ne))
            (λ i. let a = has-ne t.tail 0 ns i z in ground (arith, a))
            (λ q i. let a = has-ne q node ns i (ground (arith, out)) in ground (arith, a))
            (ground arith)
            (elim (Bool-cases (t.tail == 0)) [
              | inl e ↦ ground (arith, e)
              | inr e ↦
                  let a =
                    has-ne t.tail node ns (last_or-member t.tail ns is.tail e)
                      (ground (arith, out)) in
                  ground (arith, a, e)
            ]) in
        let head : (if t.tail == 0 then node else t.head) ≡ first_or node ns =
          ap (λ h. if t.tail == 0 then node else h)
            (Chain-first t.nodes.iter_next t.nodes.iter_prev 0 t.head ns is.iteration)
          ∙ ap (λ l. if l == 0 then node else first_or 0 ns) is.tail
          ∙ first_or-last node ns z in
        subst (λ h. Chain m.iter_next m.iter_prev 0 h (ns ++ (node ∷ []))) (sym head) c

    entry_old :
        (q : ℕ)
        → has q (ns ++ (node ∷ [])) ≡ true
        → ((q == node) ≡ true) ⊎ (((q == node) ≡ false) × (has q ns ≡ true))
    entry_old q i = elim (Bool-cases (q == node)) [
      | inl e ↦ inl e
      | inr e ↦ let a = has-append q ns (node ∷ []) in inr (e, ground (arith, a, i, e))
    ]

    pub entry-IsTable :
        IsPool pool left
        → ((q : ℕ) → has q left ≡ true → has q cached ≡ true)
        → has node left ≡ false
        → length left ≤ length cached
        → length ns + length cached + 2 < word
        → ((q : ℕ) (b : K × T)
            → has q ns ≡ true
            → t.nodes.value q ≡ some b
            → key_equal b.0 kv.0 ≡ false)
        → IsHash hash key_equal
        → IsTable hash key_equal (with_entry node kv pool t) (ns ++ (node ∷ [])) left
    entry-IsTable p sub new le small away eq =
        let (cs', b) = entry-Bucketed in
        let e = length-append ns (node ∷ []) in
        let clash : (q r : ℕ) (b c : K × T)
            → has q ns ≡ true
            → (q == node) ≡ false
            → (r == node) ≡ true
            → update t.nodes.value node (some kv) q ≡ some b
            → update t.nodes.value node (some kv) r ≡ some c
            → key_equal b.0 c.0 ≡ true
            → ⊥ =
          λ q r b c i f g v w k.
            let same : c ≡ kv =
              some-injective c kv (sym w ∙ update_eq t.nodes.value node r (some kv) g) in
            let k' : key_equal b.0 kv.0 ≡ true = subst (λ d. key_equal b.0 d.0 ≡ true) same k in
            let a = away q b i (sym (update_ne t.nodes.value node q (some kv) f) ∙ v) in
            ground (arith, a, k') in
        let mine : update t.nodes.value node (some kv) node ≡ some kv =
          update_eq t.nodes.value node node (some kv) (ground arith) in
        record {
          iteration = entry-iteration;
          tail = last_or-end 0 node ns;
          cs = cs';
          bucketed = b;
          distinct =
              insert-Distinct node ns [] (let h = has-append node ns [] in ground (arith, out, h))
                (Distinct-nil ns is.distinct);
          size = ground (arith, is.size, e, small);
          bounded = omega (arith, e, le, small);
          pool = p;
          apart = λ q i.
              let a = is.apart q (sub q i) in
              let h = has-append q ns (node ∷ []) in ground (arith, a, h, i, new);
          entries = λ q i. elim (entry_old q i) [
            | inl f ↦ (kv, ap (update t.nodes.value node (some kv)) (==→eq q node f) ∙ mine)
            | inr (f, j) ↦
                let (b, v) = is.entries q j in (b, update_ne t.nodes.value node q (some kv) f ∙ v)
          ];
          keys = λ p q a b i j v w k. elim (entry_old p i) [
            | inl f ↦ elim (entry_old q j) [
              | inl g ↦ ==→eq p node f ∙ sym (==→eq q node g)
              | inr (g, j') ↦ absurd (clash q p b a j' g f w v (eq.symmetric a.0 b.0 k))
            ]
            | inr (f, i') ↦ elim (entry_old q j) [
              | inl g ↦ absurd (clash p q a b i' f g v w k)
              | inr (g, j') ↦
                  is.keys p q a b i' j' (sym (update_ne t.nodes.value node p (some kv) f) ∙ v)
                    (sym (update_ne t.nodes.value node q (some kv) g) ∙ w) k
            ]
          ];
          present = is.present;
          empty = λ c. absurd (omega (arith, c, buckets));
        }
