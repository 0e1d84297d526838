-- ===== src/SharedList/Reversal.antt =====
-- shared_memory_list.h: `reverse` turns the ring around.
use shm_next.Base.{
  ℕ, zero, suc, ◌+◌, ◌<◌, ◌≡◌, refl, true, false, List, [], ◌∷◌, some, has, Distinct, arith, ltb,
  ◌==◌, ◌∙◌, sym, ap, length, Bool-cases, has-ne, rev_append, has-rev_append, rev_append-Distinct,
  length-rev_append, ==→eq, update_eq, inl, inr,
}
use shm_next.SharedList.{Nodes, State}
use shm_next.SharedList.Calls.{swap_links, reverse_loop, reverse}
use shm_next.SharedList.Segments.{Seg}
use shm_next.SharedList.Insertion.{IsList}

module _ {A : Type 0} where
  -- the links from `c` on lead through `rs` to `b`
  abbrev Forward : Nodes A → ℕ → List ℕ → ℕ → Type 0
  Forward n c [] b = n.next c ≡ b
  Forward n c (x ∷ xs) b = (n.next c ≡ x) × Forward n x xs b

  Forward-frame :
      (n n' : Nodes A) (c : ℕ) (rs : List ℕ) (b : ℕ)
      → ((q : ℕ) → has q (c ∷ rs) ≡ true → n'.next q ≡ n.next q)
      → Forward n c rs b
      → Forward n' c rs b
  Forward-frame n n' c [] b f h = f c (ground arith) ∙ h
  Forward-frame n n' c (x ∷ xs) b f (h, l) =
      (f c (ground arith) ∙ h, Forward-frame n n' x xs b (λ q i. f q (ground (arith, i))) l)

  Seg-Forward : (n : Nodes A) (a : ℕ) (ns : List ℕ) (b : ℕ) → Seg n a ns b → Forward n a ns b
  Seg-Forward n a [] b (h, k) = h
  Seg-Forward n a (x ∷ xs) b (h, k, s) = (h, Seg-Forward n x xs b s)

  -- From `n` to `n'` the nodes `ns` have their links exchanged, and the others are as before.
  record Swapped (ns : List ℕ) (n n' : Nodes A) : Type 0 where
    pub nexts : (q : ℕ) → has q ns ≡ true → n'.next q ≡ n.prev q
    pub prevs : (q : ℕ) → has q ns ≡ true → n'.prev q ≡ n.next q
    pub next_same : (q : ℕ) → has q ns ≡ false → n'.next q ≡ n.next q
    pub prev_same : (q : ℕ) → has q ns ≡ false → n'.prev q ≡ n.prev q
    pub values : n'.value ≡ n.value

  swap_links-Swapped : (c : ℕ) (n : Nodes A) → Swapped (c ∷ []) n (swap_links c n)
  swap_links-Swapped c n = record {
    nexts = λ q i.
        update_eq n.next c q (n.prev c) (ground (arith, i))
        ∙ ap n.prev (sym (==→eq q c (ground (arith, i))));
    prevs = λ q i.
        update_eq n.prev c q (n.next c) (ground (arith, i))
        ∙ ap n.next (sym (==→eq q c (ground (arith, i))));
    next_same = λ q o. ground (arith, o);
    prev_same = λ q o. ground (arith, o);
    values = refl;
  }

  reverse_loop-end :
      (fuel s c : ℕ) (n : Nodes A)
      → (n.next c == s) ≡ true
      → reverse_loop (suc fuel) s c n ≡ some (swap_links c n)
  unfolding reverse_loop
  reverse_loop-end fuel s c n h = rw (h, reverse_loop) refl

  reverse_loop-more :
      (fuel s c : ℕ) (n : Nodes A)
      → (n.next c == s) ≡ false
      → reverse_loop (suc fuel) s c n ≡ reverse_loop fuel s (n.next c) (swap_links c n)
  unfolding reverse_loop
  reverse_loop-more fuel s c n h = rw (h, reverse_loop) refl

  -- The loop gets to the sentinel and exchanges the links of every node on the way.
  reverse_loop-Swapped :
      (rs : List ℕ) (fuel s c : ℕ) (n : Nodes A)
      → length rs < fuel
      → Forward n c rs s
      → Distinct (c ∷ rs)
      → has s rs ≡ false
      → (n' : Nodes A) × (reverse_loop fuel s c n ≡ some n') × Swapped (c ∷ rs) n n'
  reverse_loop-Swapped rs zero s c n lt l d o = absurd (omega (arith, lt))
  reverse_loop-Swapped [] (suc fuel) s c n lt l d o =
      (swap_links c n, reverse_loop-end fuel s c n (ground (arith, l)), swap_links-Swapped c n)
  reverse_loop-Swapped (x ∷ xs) (suc fuel) s c n lt (h, l) (nc, d) o =
      let one = swap_links-Swapped c n in
      let l' =
        Forward-frame n (swap_links c n) x xs s
          (λ q i. one.next_same q (ground (arith, has-ne q c (x ∷ xs) i nc))) l in
      let (n', run, w) =
        reverse_loop-Swapped xs fuel s x (swap_links c n) (omega (arith, lt)) l' d
          (ground (arith, o)) in
      (
        n',
        reverse_loop-more fuel s c n (ground (arith, h, o))
            ∙ ap (λ k. reverse_loop fuel s k (swap_links c n)) h
            ∙ run,
        record {
          nexts = λ q i. elim (Bool-cases (has q (x ∷ xs))) [
            | inl j ↦ w.nexts q j ∙ one.prev_same q (ground (arith, has-ne q c (x ∷ xs) j nc))
            | inr j ↦ w.next_same q j ∙ one.nexts q (ground (arith, i, j))
          ];
          prevs = λ q i. elim (Bool-cases (has q (x ∷ xs))) [
            | inl j ↦ w.prevs q j ∙ one.next_same q (ground (arith, has-ne q c (x ∷ xs) j nc))
            | inr j ↦ w.prev_same q j ∙ one.prevs q (ground (arith, i, j))
          ];
          next_same =
              λ q i. w.next_same q (ground (arith, i)) ∙ one.next_same q (ground (arith, i));
          prev_same =
              λ q i. w.prev_same q (ground (arith, i)) ∙ one.prev_same q (ground (arith, i));
          values = w.values ∙ one.values;
        },
      )

  flip-Seg :
      (n n' : Nodes A) (a : ℕ) (ns : List ℕ) (b : ℕ) (acc : List ℕ) (c : ℕ)
      → ((q : ℕ) → has q (b ∷ ns) ≡ true → n'.next q ≡ n.prev q)
      → ((q : ℕ) → has q (a ∷ ns) ≡ true → n'.prev q ≡ n.next q)
      → Seg n a ns b
      → Seg n' a acc c
      → Seg n' b (rev_append ns (a ∷ acc)) c
  flip-Seg n n' a [] b acc c f g (h, k) t = (f b (ground arith) ∙ k, g a (ground arith) ∙ h, t)
  flip-Seg n n' a (x ∷ xs) b acc c f g (h, k, s) t =
      flip-Seg n n' x xs b (a ∷ acc) c (λ q i. f q (ground (arith, i)))
        (λ q i. g q (ground (arith, i))) s (f x (ground arith) ∙ k, g a (ground arith) ∙ h, t)

module _ {A W : Type 0} where
  reverse-few : (s : State A W) → ltb s.list.size 2 ≡ true → reverse s ≡ some s
  unfolding reverse
  reverse-few s h = rw (h, reverse) refl

  reverse-many :
      (s : State A W) (n : Nodes A)
      → ltb s.list.size 2 ≡ false
      → reverse_loop (s.list.size + 1) s.list.sentinel s.list.sentinel s.nodes ≡ some n
      → reverse s ≡ some (record s { nodes = n })
  unfolding reverse
  reverse-many s n h r = rw (h, r, reverse) refl

  -- `reverse` of a well-formed list returns, and the same nodes with the same values stand in the opposite
  -- order, in a list that is well formed.
  pub reverse-IsList :
      (s : State A W) (ns cached : List ℕ)
      → IsList s ns cached
      → (s' : State A W) × (reverse s ≡ some s')
        × (s'.nodes.value ≡ s.nodes.value)
        × IsList s' (rev_append ns []) cached
  reverse-IsList s [] cached l = (s, reverse-few s (ground (arith, l.size)), refl, l)
  reverse-IsList s (x ∷ []) cached l = (s, reverse-few s (ground (arith, l.size)), refl, l)
  reverse-IsList s (x ∷ y ∷ ys) cached l =
      let b = s.list.sentinel in
      let ns = x ∷ y ∷ ys in
      let (n, run, w) =
        reverse_loop-Swapped ns (s.list.size + 1) b b s.nodes (omega (arith, l.size))
          (Seg-Forward s.nodes b ns b l.ring) (l.outside, l.distinct) l.outside in
      (
        record s { nodes = n },
        reverse-many s n (ground (arith, l.size)) run,
        w.values,
        record {
          ring =
              flip-Seg s.nodes n x (y ∷ ys) b [] b (λ q i. w.nexts q (ground (arith, i)))
                (λ q i. w.prevs q (ground (arith, i))) l.ring.2
                (w.nexts x (ground arith) ∙ l.ring.1, w.prevs b (ground arith) ∙ l.ring.0);
          distinct = rev_append-Distinct ns [] l.distinct tt (λ q i. refl);
          outside = let r = has-rev_append b ns [] in ground (arith, r, l.outside);
          no_null = let r = has-rev_append 0 ns [] in ground (arith, r, l.no_null);
          size = omega (arith, l.size, length-rev_append ns []);
          bounded = omega (arith, l.bounded, length-rev_append ns []);
          pool = l.pool;
          apart =
              λ q i. let a = l.apart q i in let r = has-rev_append q ns [] in ground (arith, a, r);
        },
      )
