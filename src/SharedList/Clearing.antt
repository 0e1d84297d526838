-- ===== src/SharedList/Clearing.antt =====
-- shared_memory_list.h: `clear` gives every node to the pool.
use mathlib.Core.Path.{subst}
use shm_next.Base.{
  ℕ, zero, suc, ◌+◌, ◌<◌, ◌≡◌, refl, Bool, true, false, List, [], ◌∷◌, some, has, Distinct, arith,
  ◌==◌, ◌∙◌, sym, ap, length, Bool-cases, update_eq, inl, inr, word, rev_append, has-rev_append,
  length-rev_append, has-ne, ==→eq, first_or,
}
use shm_next.NodePool
use shm_next.NodePool.{NodeAllocator, Pool}
use shm_next.NodePool.Laws.{IsPool, destroy-IsPool}
use shm_next.SharedList.{State, reset_sentinel, destroy_node, clear_loop, clear}
use shm_next.SharedList.Segments.{Seg, Seg-first}
use shm_next.SharedList.Insertion.{IsList}

module _ {A W : Type 0} (al : NodeAllocator W) (build : A → ℕ → W → Bool × W) where
  -- the state with another pool
  abbrev with_pool : Pool W → State A W → State A W
  with_pool p s = record s { list = record s.list { node_pool = p } }

  clear_loop-end :
      (fuel c : ℕ) (s : State A W)
      → (c == s.list.sentinel) ≡ true
      → clear_loop al build (suc fuel) c s ≡ some s
  unfolding clear_loop
  clear_loop-end fuel c s h = rw (h, clear_loop) refl

  clear_loop-more :
      (fuel c : ℕ) (s : State A W)
      → (c == s.list.sentinel) ≡ false
      → clear_loop al build (suc fuel) c s
        ≡ clear_loop al build fuel
            (s.nodes.next c)
            (with_pool (NodePool.destroy al c s.list.node_pool) s)
  unfolding clear_loop destroy_node
  clear_loop-more fuel c s h = rw (h, clear_loop) refl

  clear_loop-Cleared :
      (rs cached : List ℕ) (fuel a : ℕ) (s : State A W)
      → length rs < fuel
      → Seg s.nodes a rs s.list.sentinel
      → IsPool s.list.node_pool cached
      → Distinct rs
      → has s.list.sentinel rs ≡ false
      → has 0 rs ≡ false
      → ((q : ℕ) → has q cached ≡ true → has q rs ≡ false)
      → length rs + length cached + 1 < word
      → (p : Pool W) × (clear_loop al build fuel (first_or s.list.sentinel rs) s
          ≡ some (with_pool p s))
        × IsPool p (rev_append rs cached)
  clear_loop-Cleared rs cached zero a s lt g is d o z f small = absurd (omega (arith, lt))
  clear_loop-Cleared [] cached (suc fuel) a s lt g is d o z f small =
      (s.list.node_pool, clear_loop-end fuel s.list.sentinel s (ground arith), is)
  clear_loop-Cleared (x ∷ xs) cached (suc fuel) a s lt (h, k, g) is (nx, d) o z f small =
      let b = s.list.sentinel in
      let fx = f x in
      let out : has x cached ≡ false = ground (arith, fx) in
      let pool = NodePool.destroy al x s.list.node_pool in
      let is' =
        destroy-IsPool al x s.list.node_pool cached is (ground (arith, z)) out
          (omega (arith, small)) in
      let (p, run, done') =
        clear_loop-Cleared xs (x ∷ cached) fuel x (with_pool pool s) (omega (arith, lt)) g is' d
          (ground (arith, o)) (ground (arith, z))
          (λ q i.
            let fq = f q in
            elim (Bool-cases (has q xs)) [
              | inr n ↦ n
              | inl j ↦ absurd (let e = has-ne q x xs j nx in ground (arith, i, e, fq, j))
            ])
          (omega (arith, small)) in
      (
        p,
        clear_loop-more fuel x s (ground (arith, o))
            ∙ ap (λ c. clear_loop al build fuel c (with_pool pool s)) (Seg-first s.nodes x xs b g)
            ∙ run,
        done',
      )

  clear-run :
      (s s₁ : State A W)
      → clear_loop al build (s.list.size + 1) (s.nodes.next s.list.sentinel) s ≡ some s₁
      → clear al build s
        ≡ some (record {
          nodes = reset_sentinel s₁.list.sentinel s₁.nodes;
          list = record s₁.list { size = 0 };
        })
  unfolding clear
  clear-run s s₁ h = rw (h, clear) refl

  -- `clear` of a well-formed list returns, and leaves a well-formed list without nodes and all of its
  -- nodes cached in the pool.
  pub clear-IsList :
      (s : State A W) (ns cached : List ℕ)
      → IsList s ns cached
      → (s' : State A W) × (clear al build s ≡ some s') × IsList s' [] (rev_append ns cached)
  clear-IsList s ns cached l =
      let b = s.list.sentinel in
      let (p, run, is) =
        clear_loop-Cleared ns cached (s.list.size + 1) b s (omega (arith, l.size)) l.ring l.pool
          l.distinct l.outside l.no_null (λ q i. let a = l.apart q i in ground (arith, a))
          l.bounded in
      let first =
        ap (λ c. clear_loop al build (s.list.size + 1) c s) (Seg-first s.nodes b ns b l.ring) in
      (
        record {
          nodes = reset_sentinel b s.nodes;
          list = record s.list { node_pool = p; size = 0 };
        },
        clear-run s (with_pool p s) (first ∙ run),
        record {
          ring = (
            update_eq s.nodes.next b b b (ground arith),
            update_eq s.nodes.prev b b b (ground arith),
          );
          distinct = tt;
          outside = refl;
          no_null = refl;
          size = refl;
          bounded = omega (arith, l.bounded, length-rev_append ns cached);
          pool = is;
          apart = λ q i.
              let r = has-rev_append q ns cached in
              let a = l.apart q in
              elim (Bool-cases (q == b)) [
                | inr e ↦ ground (arith, e)
                | inl e ↦
                    let o : has q ns ≡ false =
                      subst (λ k. has k ns ≡ false) (sym (==→eq q b e)) l.outside in
                    absurd (ground (arith, i, r, a, e, o))
              ];
        },
      )
