-- ===== src/SharedList/Insertion.antt =====
-- shared_memory_list.h: `emplace` and `erase` on a well-formed list.
use mathlib.Core.Path.{subst}
use shm_next.Base.{
  ℕ, ◌+◌, ◌≤◌, ◌<◌, ◌≡◌, refl, Bool, true, false, List, [], ◌∷◌, ◌++◌, Option, none, some, has,
  Distinct, has-append, arith, update, sym, ap, update_eq, update_ne, length, length-append,
  Links-has_null, word, ◌+w◌, Option-cases, inl, inr, ◌⊎◌, first_or, insert-Distinct,
}
use shm_next.NodePool
use shm_next.NodePool.{NodeAllocator, Pool}
use shm_next.NodePool.Laws.{IsPool, create-Success, create-throws, create-allocated}
use shm_next.SharedList.{
  State, link_between, making, construct_node, link_node, create_node, emplace,
}
use shm_next.SharedList.Segments.{Seg, Seg-frame, Seg-before}
use shm_next.SharedList.Linking.{link_between-Seg}

-- The list holds the nodes `ns`, in this order; `cached` are the nodes that its pool keeps.
pub record IsList {A W : Type 0} (s : State A W) (ns cached : List ℕ) : Type 0 where
  pub ring : Seg s.nodes s.list.sentinel ns s.list.sentinel
  pub distinct : Distinct ns
  pub outside : has s.list.sentinel ns ≡ false
  pub no_null : has 0 ns ≡ false
  pub size : s.list.size ≡ length ns
  pub bounded : length ns + length cached + 1 < word
  pub pool : IsPool s.list.node_pool cached
  pub apart : (q : ℕ) → has q cached ≡ true → has q (s.list.sentinel ∷ ns) ≡ false

module _ {A W : Type 0} (al : NodeAllocator W) (build : A → ℕ → W → Bool × W) where
  -- the state with a new node and the pool that `create` left
  abbrev with_node : (node : ℕ) → A → Pool W → State A W → State A W
  with_node node x pool s = record {
    nodes = record s.nodes {
      prev = update s.nodes.prev node node;
      next = update s.nodes.next node node;
      value = update s.nodes.value node (some x);
    };
    list = record s.list { node_pool = pool };
  }

  emplace-made :
      (pos : ℕ) (x : A) (s : State A W) (node : ℕ)
      → (NodePool.create (making al build x) s.list.node_pool).0 ≡ some node
      → emplace al build pos x s ≡ (
        some node,
        record {
          nodes =
              link_between
                ((with_node node x
                    (NodePool.create (making al build x) s.list.node_pool).1
                    s).nodes.prev
                  pos)
                pos
                node
                (with_node node x (NodePool.create (making al build x) s.list.node_pool).1 s).nodes;
          list = record s.list {
            node_pool = (NodePool.create (making al build x) s.list.node_pool).1;
            size = s.list.size +w 1;
          };
        },
      )
  unfolding emplace create_node
  emplace-made pos x s node e =
      ap
        (λ o. link_node al build pos (
          construct_node al build x s
            (o, (NodePool.create (making al build x) s.list.node_pool).1)))
        e

  emplace-threw :
      (pos : ℕ) (x : A) (s : State A W)
      → (NodePool.create (making al build x) s.list.node_pool).0 ≡ none
      → emplace al build pos x s ≡ (
        none,
        record s {
          list = record s.list {
            node_pool = (NodePool.create (making al build x) s.list.node_pool).1;
          };
        },
      )
  unfolding emplace create_node
  emplace-threw pos x s e =
      ap
        (λ o. link_node al build pos (
          construct_node al build x s
            (o, (NodePool.create (making al build x) s.list.node_pool).1)))
        e

  -- What `emplace` at `pos` leaves: the new node stands there with its value, and the others keep theirs;
  -- or nothing was created, and the list is as before.
  pub record Inserted (s : State A W) (ys zs : List ℕ) (x : A) (node : ℕ) (s' : State A W)
      : Type 0 where
    pub cached : List ℕ
    pub list : IsList s' (ys ++ (node ∷ zs)) cached
    pub same : s'.list.sentinel ≡ s.list.sentinel
    pub mine : s'.nodes.value node ≡ some x
    pub others : (q : ℕ) → has q (ys ++ zs) ≡ true → s'.nodes.value q ≡ s.nodes.value q

  abbrev pub Emplaced : State A W → (ys zs cached : List ℕ) → A → Option ℕ × State A W → Type 0
  Emplaced s ys zs cached x r =
      ((node : ℕ) × (r.0 ≡ some node) × Inserted s ys zs x node r.1)
      ⊎ ((r.0 ≡ none) × (r.1.nodes ≡ s.nodes) × IsList r.1 (ys ++ zs) cached)

  insert-Inserted :
      (s : State A W) (ys zs cached left : List ℕ) (x : A) (node : ℕ) (pool : Pool W)
      → IsList s (ys ++ zs) cached
      → IsPool pool left
      → has node (0 ∷ s.list.sentinel ∷ ys ++ zs) ≡ false
      → ((q : ℕ) → has q left ≡ true → has q cached ≡ true)
      → has node left ≡ false
      → length left ≤ length cached
      → length (ys ++ zs) + length cached + 2 < word
      → Inserted s ys zs x node (record {
        nodes =
            link_between
              ((with_node node x pool s).nodes.prev (first_or s.list.sentinel zs))
              (first_or s.list.sentinel zs)
              node
              (with_node node x pool s).nodes;
        list = record s.list { node_pool = pool; size = s.list.size +w 1 };
      })
  insert-Inserted s ys zs cached left x node pool l p out sub new le small =
      let b = s.list.sentinel in
      let n = (with_node node x pool s).nodes in
      let ring : Seg n b (ys ++ zs) b =
        Seg-frame s.nodes n b (ys ++ zs) b
          (λ q i. update_ne s.nodes.next node q node (ground (arith, i, out)))
          (λ q i. update_ne s.nodes.prev node q node (ground (arith, i, out))) l.ring in
      let linked =
        link_between-Seg n b node ys zs b ring (ground (arith, out)) l.outside l.outside
          l.distinct in
      let e = length-append ys zs in
      let e' = length-append ys (node ∷ zs) in
      record {
        cached = left;
        list = record {
          ring =
              subst (λ p. Seg (link_between p (first_or b zs) node n) b (ys ++ (node ∷ zs)) b)
                (sym (Seg-before n b ys zs b ring)) linked;
          distinct = insert-Distinct node ys zs (ground (arith, out)) l.distinct;
          outside = ground (arith, out, l.outside, has-append b ys zs, has-append b ys (node ∷ zs));
          no_null = ground (arith, out, l.no_null, has-append 0 ys zs, has-append 0 ys (node ∷ zs));
          size = ground (arith, l.size, e, e', small);
          bounded = omega (arith, e, e', le, small);
          pool = p;
          apart = λ q i.
              let a = l.apart q (sub q i) in
              ground (arith, a, new, i, has-append q ys zs, has-append q ys (node ∷ zs));
        };
        same = refl;
        mine = update_eq s.nodes.value node node (some x) (ground arith);
        others = λ q i. update_ne s.nodes.value node q (some x) (ground (arith, i, out));
      }

  module _ (s : State A W) (ys zs cached : List ℕ) (x : A) (l : IsList s (ys ++ zs) cached)
      (fresh : (node : ℕ)
        → (al.allocate s.list.node_pool.world).0 ≡ some node
        → has node (0 ∷ s.list.sentinel ∷ ys ++ zs) ≡ false)
      (small : length (ys ++ zs) + length cached + 2 < word)
      (counted : s.list.node_pool.node_pool_allocations + 1 < word) where
    made-Inserted :
        (node : ℕ)
        → (NodePool.create (making al build x) s.list.node_pool).0 ≡ some node
        → (cs : List ℕ) → cs ≡ cached
        → Inserted s ys zs x node (emplace al build (first_or s.list.sentinel zs) x s).1
    made-Inserted node e [] c =
        let pool = (NodePool.create (making al build x) s.list.node_pool).1 in
        let p = subst (IsPool s.list.node_pool) (sym c) l.pool in
        let ok = create-Success (making al build x) s.list.node_pool [] p e in
        let gave = create-allocated (making al build x) s.list.node_pool p e in
        subst (λ r. Inserted s ys zs x node r.1)
          (sym (emplace-made (first_or s.list.sentinel zs) x s node e))
          (insert-Inserted s ys zs cached [] x node pool l ok.0 (fresh node gave)
            (λ q i. ground (arith, i)) refl (omega arith) small)
    made-Inserted node e (k ∷ ks) c =
        let pool = (NodePool.create (making al build x) s.list.node_pool).1 in
        let p = subst (IsPool s.list.node_pool) (sym c) l.pool in
        let (same, ok, _, _) = create-Success (making al build x) s.list.node_pool (k ∷ ks) p e in
        let i : has node cached ≡ true =
          subst (λ cs. has node cs ≡ true) c (ground (arith, same)) in
        let a = l.apart node i in
        let z = Links-has_null s.list.node_pool.next s.list.node_pool.free_nodes (k ∷ ks) p.links in
        subst (λ r. Inserted s ys zs x node r.1)
          (sym (emplace-made (first_or s.list.sentinel zs) x s node e))
          (insert-Inserted s ys zs cached ks x node pool l ok (ground (arith, a, z, same))
            (λ q j. subst (λ cs. has q cs ≡ true) c (ground (arith, j)))
            (subst (λ n. has n ks ≡ false) (sym same) p.distinct.0)
            (subst (λ cs. length ks ≤ length cs) c (omega arith)) small)

    -- `emplace` in front of the chain `zs` of a well-formed list, or at its end where `zs` is empty, puts a
    -- node with the value there, and the other nodes keep their order and values; or it throws, and the
    -- nodes are as they were. The list stays well formed. The node that the allocator gives, if it gives
    -- one, is neither null nor in the list, and neither the nodes nor the allocations overflow a word.
    pub emplace-Emplaced :
        Emplaced s ys zs cached x (emplace al build (first_or s.list.sentinel zs) x s)
    emplace-Emplaced =
        elim (Option-cases (NodePool.create (making al build x) s.list.node_pool).0) [
          | inr (node, e) ↦ inl (
            node,
            ap (λ r. r.0) (emplace-made (first_or s.list.sentinel zs) x s node e),
            made-Inserted node e cached refl,
          )
          | inl e ↦
              let r = emplace-threw (first_or s.list.sentinel zs) x s e in
              let p = create-throws (making al build x) s.list.node_pool cached l.pool counted e in
              inr (
                ap (λ r. r.0) r,
                ap (λ r. r.1.nodes) r,
                subst (λ r. IsList r.1 (ys ++ zs) cached) (sym r)
                    (record {
                      ring = l.ring;
                      distinct = l.distinct;
                      outside = l.outside;
                      no_null = l.no_null;
                      size = l.size;
                      bounded = l.bounded;
                      pool = p.0;
                      apart = l.apart;
                    }),
              )
        ]
