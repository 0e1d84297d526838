-- ===== src/SharedList/Sorting.antt =====
-- shared_memory_list.h: `sort` links the nodes anew, in the order that they were sorted into.
use shm_next.Base.{
  ℕ, zero, suc, ◌+◌, ◌<◌, ◌≡◌, refl, Bool, true, false, List, [], ◌∷◌, some, has, Distinct, arith,
  ltb, ◌==◌, if◌then◌else◌, ◌∙◌, sym, ap, length, Bool-cases, update_eq, update_ne, inl, inr,
  first_or, last_or, last_or-ne,
}
use shm_next.SharedList.{Nodes, State, set_prev, set_next}
use shm_next.SharedList.Splicing.{collect, relink_pairs, relink_nodes_in_order, by_value, sort}
use shm_next.SharedList.Segments.{Seg, Seg-first}
use shm_next.SharedList.Insertion.{IsList}

module _ {A : Type 0} where
  collect-end : (fuel s c : ℕ) (n : Nodes A) → (c == s) ≡ true → collect (suc fuel) s c n ≡ some []
  unfolding collect
  collect-end fuel s c n h = rw (h, collect) refl

  collect-more :
      (fuel s c d : ℕ) (xs : List ℕ) (n : Nodes A)
      → (c == s) ≡ false
      → n.next c ≡ d
      → collect fuel s d n ≡ some xs
      → collect (suc fuel) s c n ≡ some (c ∷ xs)
  unfolding collect
  collect-more fuel s c d xs n h e r = rw (h, e, r, collect) refl

  -- The nodes of the ring are collected in their order.
  collect-all :
      (rs : List ℕ) (fuel s a : ℕ) (n : Nodes A)
      → length rs < fuel
      → has s rs ≡ false
      → Seg n a rs s
      → collect fuel s (first_or s rs) n ≡ some rs
  collect-all rs zero s a n lt o g = absurd (omega (arith, lt))
  collect-all [] (suc fuel) s a n lt o g = collect-end fuel s s n (ground arith)
  collect-all (x ∷ xs) (suc fuel) s a n lt o (h, k, g) =
      collect-more fuel s x (first_or s xs) xs n (ground (arith, o)) (Seg-first n x xs s g)
        (collect-all xs fuel s x n (omega (arith, lt)) (ground (arith, o)) g)

  -- what `relink_pairs` leaves behind the node `p`
  record Relinked (p : ℕ) (xs : List ℕ) (b : ℕ) (n n' : Nodes A) : Type 0 where
    pub ring : Seg n' p xs b
    pub nexts : (q : ℕ) → has q (p ∷ xs) ≡ false → n'.next q ≡ n.next q
    pub prevs : (q : ℕ) → has q xs ≡ false → n'.prev q ≡ n.prev q
    pub values : n'.value ≡ n.value

  relink_pairs-Relinked :
      (p : ℕ) (xs : List ℕ) (b : ℕ) (n : Nodes A)
      → Distinct (p ∷ xs)
      → has b (p ∷ xs) ≡ false
      → n.next (last_or p xs) ≡ b
      → n.prev b ≡ last_or p xs
      → Relinked p xs b n (relink_pairs p xs n)
  unfolding relink_pairs
  relink_pairs-Relinked p [] b n d o h k = record {
    ring = (h, k);
    nexts = λ q i. refl;
    prevs = λ q i. refl;
    values = refl;
  }
  relink_pairs-Relinked p (x ∷ xs) b n (np, (nx, d)) o h k =
      let n₁ = set_prev x p (set_next p x n) in
      let r =
        relink_pairs-Relinked x xs b n₁ (nx, d) (ground (arith, o))
          (update_ne n.next p (last_or x xs) x (ground (arith, last_or-ne p x xs np)) ∙ h)
          (update_ne n.prev x b p (ground (arith, o)) ∙ k) in
      record {
        ring = (
          r.nexts p np ∙ update_eq n.next p p x (ground arith),
          r.prevs x nx ∙ update_eq n.prev x x p (ground arith),
          r.ring,
        );
        nexts = λ q i. r.nexts q (ground (arith, i)) ∙ update_ne n.next p q x (ground (arith, i));
        prevs = λ q i. r.prevs q (ground (arith, i)) ∙ update_ne n.prev x q p (ground (arith, i));
        values = r.values;
      }

  -- The nodes stand in the ring in the order given.
  pub relink-Seg :
      (b : ℕ) (xs : List ℕ) (n : Nodes A)
      → Distinct xs
      → has b xs ≡ false
      → Seg (relink_nodes_in_order b xs n) b xs b × ((relink_nodes_in_order b xs n).value ≡ n.value)
  unfolding relink_nodes_in_order
  relink-Seg b [] n d o =
      ((update_eq n.next b b b (ground arith), update_eq n.prev b b b (ground arith)), refl)
  relink-Seg b (x ∷ xs) n d o =
      let l = last_or x xs in
      let n₁ = set_next l b (set_prev x b (set_prev b l (set_next b x n))) in
      let away = last_or-ne b x xs o in
      let r = relink_pairs-Relinked x xs b n₁ d o (ground arith) (ground (arith, o)) in
      ((r.nexts b o ∙ ground (arith, away), r.prevs x d.0 ∙ ground (arith, o), r.ring), r.values)

-- What `std::stable_sort` gives has the same members, each as often as before.
pub record Rearranges (stable_sort : (ℕ → ℕ → Bool) → List ℕ → List ℕ) : Type 0 where
  pub members :
      (before : ℕ → ℕ → Bool) (xs : List ℕ) (q : ℕ) → has q (stable_sort before xs) ≡ has q xs
  pub lengths : (before : ℕ → ℕ → Bool) (xs : List ℕ) → length (stable_sort before xs) ≡ length xs
  pub distinct :
      (before : ℕ → ℕ → Bool) (xs : List ℕ) → Distinct xs → Distinct (stable_sort before xs)

module _ {A W : Type 0} (stable_sort : (ℕ → ℕ → Bool) → List ℕ → List ℕ) where
  sort-few :
      (comp : A → A → Bool) (s : State A W)
      → ltb s.list.size 2 ≡ true
      → sort stable_sort comp s ≡ some s
  unfolding sort
  sort-few comp s h = rw (h, sort) refl

  sort-many :
      (comp : A → A → Bool) (s : State A W) (xs : List ℕ)
      → ltb s.list.size 2 ≡ false
      → collect (s.list.size + 1) s.list.sentinel (s.nodes.next s.list.sentinel) s.nodes ≡ some xs
      → sort stable_sort comp s
        ≡ some (record s {
          nodes =
              relink_nodes_in_order s.list.sentinel
                (stable_sort (by_value comp s.nodes) xs)
                s.nodes;
        })
  unfolding sort
  sort-many comp s xs h e = rw (h, e, sort) refl

  -- the order of the nodes after `sort`
  abbrev pub sorted : (A → A → Bool) → State A W → List ℕ → List ℕ
  sorted comp s ns = if ltb s.list.size 2 then ns else stable_sort (by_value comp s.nodes) ns

  -- Where `std::stable_sort` keeps the members, `sort` of a well-formed list returns, and leaves it well
  -- formed with the same values, its nodes in the order that the stable sort by values gives, or in the
  -- same order where there are fewer than two.
  pub sort-IsList :
      (comp : A → A → Bool) (s : State A W) (ns cached : List ℕ)
      → Rearranges stable_sort
      → IsList s ns cached
      → (s' : State A W) × (sort stable_sort comp s ≡ some s')
        × (s'.nodes.value ≡ s.nodes.value)
        × IsList s' (sorted comp s ns) cached
  sort-IsList comp s ns cached is l = elim (Bool-cases (ltb s.list.size 2)) [
    | inl few ↦ (s, sort-few comp s few, refl, rw few l)
    | inr many ↦
        let b = s.list.sentinel in
        let order = by_value comp s.nodes in
        let ys = stable_sort order ns in
        let all =
          collect-all ns (s.list.size + 1) b b s.nodes (omega (arith, l.size)) l.outside l.ring in
        let run =
          ap (λ c. collect (s.list.size + 1) b c s.nodes) (Seg-first s.nodes b ns b l.ring) ∙ all in
        let (ring, values) =
          relink-Seg b ys s.nodes (is.distinct order ns l.distinct)
            (is.members order ns b ∙ l.outside) in
        (
          record s { nodes = relink_nodes_in_order b ys s.nodes },
          sort-many comp s ns many run,
          values,
          rw many (record {
            ring = ring;
            distinct = is.distinct order ns l.distinct;
            outside = is.members order ns b ∙ l.outside;
            no_null = is.members order ns 0 ∙ l.no_null;
            size = l.size ∙ sym (is.lengths order ns);
            bounded = omega (arith, l.bounded, is.lengths order ns);
            pool = l.pool;
            apart =
                λ q i. let a = l.apart q i in let r = is.members order ns q in ground (arith, a, r);
          }),
        )
  ]
