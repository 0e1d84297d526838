-- ===== src/SharedList/Removal.antt =====
-- shared_memory_list.h: `erase` on a well-formed list.
use mathlib.Core.Path.{subst}
use shm_next.Base.{
  ℕ, ◌≡◌, refl, Bool, true, false, List, ◌∷◌, ◌++◌, has, has-append, arith, ◌==◌, ◌∙◌, sym, ap,
  length-append, Bool-cases, ==→eq, ◌-w◌, inl, inr, first_or, remove-Distinct,
}
use shm_next.NodePool
use shm_next.NodePool.{NodeAllocator, Pool}
use shm_next.NodePool.Laws.{destroy-IsPool}
use shm_next.SharedList.{State, unlink, destroy_node, erase}
use shm_next.SharedList.Segments.{Seg-at}
use shm_next.SharedList.Linking.{unlink-Seg}
use shm_next.SharedList.Insertion.{IsList}

module _ {A W : Type 0} (al : NodeAllocator W) (build : A → ℕ → W → Bool × W) where
  erase-run :
      (x : ℕ) (s : State A W)
      → (x == s.list.sentinel) ≡ false
      → erase al build x s ≡ (
        s.nodes.next x,
        record {
          nodes = unlink x s.nodes;
          list = record s.list {
            node_pool = NodePool.destroy al x s.list.node_pool;
            size = s.list.size -w 1;
          };
        },
      )
  unfolding erase destroy_node
  erase-run x s e = rw (e, erase) refl

  erase-end : (s : State A W) → erase al build s.list.sentinel s ≡ (s.list.sentinel, s)
  unfolding erase
  erase-end s =
      let e : (s.list.sentinel == s.list.sentinel) ≡ true = ground arith in rw (e, erase) refl

  -- `erase` of a node of a well-formed list takes it out, caches it in the pool and returns the place
  -- behind it. The other nodes keep their order, and all values stay.
  pub erase-IsList :
      (s : State A W) (ys zs cached : List ℕ) (x : ℕ)
      → IsList s (ys ++ (x ∷ zs)) cached
      → ((erase al build x s).0 ≡ first_or s.list.sentinel zs)
        × ((erase al build x s).1.nodes.value ≡ s.nodes.value)
        × IsList (erase al build x s).1 (ys ++ zs) (x ∷ cached)
  erase-IsList s ys zs cached x l =
      let b = s.list.sentinel in
      let a = has-append b ys (x ∷ zs) in
      let a' = has-append b ys zs in
      let o = has-append 0 ys (x ∷ zs) in
      let o' = has-append 0 ys zs in
      let e = length-append ys (x ∷ zs) in
      let e' = length-append ys zs in
      let (d, nx) = remove-Distinct x ys zs l.distinct in
      let mine = has-append x ys (x ∷ zs) in
      let out : has x cached ≡ false = let p = l.apart x in ground (arith, p, mine) in
      let run = erase-run x s (ground (arith, l.outside, a)) in
      (
        ap (λ r. r.0) run ∙ (Seg-at s.nodes b x ys zs b l.ring).1,
        ap (λ r. r.1.nodes.value) run,
        subst (λ r. IsList r.1 (ys ++ zs) (x ∷ cached)) (sym run)
            (record {
              ring = unlink-Seg s.nodes b x ys zs b l.ring l.outside l.outside l.distinct;
              distinct = d;
              outside = ground (arith, l.outside, a, a');
              no_null = ground (arith, l.no_null, o, o');
              size = ground (arith, l.size, e, e', l.bounded);
              bounded = omega (arith, e, e', l.bounded);
              pool =
                  destroy-IsPool al x s.list.node_pool cached l.pool (ground (arith, l.no_null, o))
                    out (omega (arith, l.bounded, e));
              apart = λ q i. elim (Bool-cases (q == x)) [
                | inl same ↦
                    let k : x ≡ q = sym (==→eq q x same) in
                    subst (λ z. has z (b ∷ ys ++ zs) ≡ false) k (ground (arith, nx, l.outside, a))
                | inr other ↦
                    let p = l.apart q (ground (arith, i, other)) in
                    let f = has-append q ys (x ∷ zs) in
                    let f' = has-append q ys zs in ground (arith, p, f, f')
              ];
            }),
      )
