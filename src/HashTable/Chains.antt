-- ===== src/HashTable/Chains.antt =====
-- shared_memory_hash_table.h: chains of nodes that end in null, with links back.
use mathlib.Core.Path.{subst}
use shm_next.Base.{
  ℕ, ◌<◌, ◌≡◌, refl, true, false, List, [], ◌∷◌, ◌++◌, has, Distinct, has-append, arith, ◌==◌,
  if◌then◌else◌, update, ◌∙◌, sym, ap, update_eq, update_ne, last_or, first_or, last_or-ne,
  last_or-cons, first_or-append, remove-Distinct, has-ne, last_or-member, first_or-member, ◌⊎◌, inl,
  inr, Bool-cases,
}
use shm_next.HashTable.{put_at}

-- From `c` the links lead through `xs` to null, and back to `p`.
abbrev pub Chain : (next prev : ℕ → ℕ) → (p c : ℕ) → List ℕ → Type 0
Chain next prev p c [] = c ≡ 0
Chain next prev p c (x ∷ xs) = (c ≡ x) × (0 < x) × (prev x ≡ p) × Chain next prev x (next x) xs

pub Chain-frame :
    (next prev next' prev' : ℕ → ℕ) (p c : ℕ) (xs : List ℕ)
    → ((q : ℕ) → has q xs ≡ true → next' q ≡ next q)
    → ((q : ℕ) → has q xs ≡ true → prev' q ≡ prev q)
    → Chain next prev p c xs
    → Chain next' prev' p c xs
Chain-frame next prev next' prev' p c [] f g h = h
Chain-frame next prev next' prev' p c (x ∷ xs) f g (e, pos, b, l) =
    let here : next' x ≡ next x = f x (ground arith) in
    (
      e,
      pos,
      g x (ground arith) ∙ b,
      rw here (
          Chain-frame next prev next' prev' x (next x) xs (λ q i. f q (ground (arith, i)))
            (λ q i. g q (ground (arith, i))) l),
    )

pub Chain-first :
    (next prev : ℕ → ℕ) (p c : ℕ) (xs : List ℕ) → Chain next prev p c xs → c ≡ first_or 0 xs
Chain-first next prev p c [] h = h
Chain-first next prev p c (x ∷ xs) (e, pos, b, l) = e

-- Null is on no chain.
pub Chain-has_null :
    (next prev : ℕ → ℕ) (p c : ℕ) (xs : List ℕ) → Chain next prev p c xs → has 0 xs ≡ false
Chain-has_null next prev p c [] h = refl
Chain-has_null next prev p c (x ∷ xs) (e, pos, b, l) =
    let r = Chain-has_null next prev x (next x) xs l in ground (arith, r, pos)

-- Between `ys` and `zs` stands `x`.
pub Chain-at :
    (next prev : ℕ → ℕ) (p c x : ℕ) (ys zs : List ℕ)
    → Chain next prev p c (ys ++ (x ∷ zs))
    → (prev x ≡ last_or p ys) × (next x ≡ first_or 0 zs)
Chain-at next prev p c x [] zs (e, pos, b, l) = (b, Chain-first next prev x (next x) zs l)
Chain-at next prev p c x (y ∷ ys) zs (e, pos, b, l) = Chain-at next prev y (next y) x ys zs l

-- A node goes in front.
pub Chain-push :
    (next prev : ℕ → ℕ) (c node : ℕ) (xs : List ℕ)
    → Chain next prev 0 c xs
    → Distinct xs
    → has node xs ≡ false
    → 0 < node
    → Chain (update next node c) (put_at c node (update prev node 0)) 0 node (node ∷ xs)
Chain-push next prev c node [] e d out pos =
    (refl {a = node}, pos, ground (arith, e), ground (arith, e))
Chain-push next prev c node (x ∷ xs) (e, px, b, l) (nx, d) out pos = (
  refl {a = node},
  pos,
  ground (arith, e, out, px),
  (
    update_eq next node node c (ground arith) ∙ e,
    px,
    ground (arith, e, px),
    (let here : update next node c x ≡ next x = update_ne next node x c (ground (arith, out)) in
        rw here (
          Chain-frame next prev (update next node c) (put_at c node (update prev node 0)) x (next x)
            xs (λ q i. update_ne next node q c (ground (arith, i, out)))
            (λ q i. ground (arith, i, out, nx, e)) l)),
  ),
)

-- A node goes behind the last one, `l`.
pub Chain-append :
    (next prev next' prev' : ℕ → ℕ) (p c node l : ℕ) (xs : List ℕ)
    → Chain next prev p c xs
    → Distinct xs
    → 0 < node
    → l ≡ last_or p xs
    → ((q : ℕ) → has q xs ≡ true → (q == l) ≡ false → next' q ≡ next q)
    → (has l xs ≡ true → next' l ≡ node)
    → ((q : ℕ) → has q xs ≡ true → prev' q ≡ prev q)
    → prev' node ≡ l
    → next' node ≡ 0
    → Chain next' prev' p (first_or node xs) (xs ++ (node ∷ []))
Chain-append next prev next' prev' p c node l [] ch d pos e f g h i j =
    (refl {a = node}, pos, i ∙ e, j)
Chain-append next prev next' prev' p c node l (x ∷ []) (k, px, b, ch) d pos e f g h i j =
    let last : next' x ≡ node = ap next' (sym e) ∙ g (ground (arith, e)) in
    (refl {a = x}, px, h x (ground arith) ∙ b, (last, pos, i ∙ e, j))
Chain-append next prev next' prev' p c node l (x ∷ y ∷ ys) (k, px, b, ch) (nx, d) pos e f g h i j =
    let ne : (x == l) ≡ false = rw e (last_or-ne x y ys nx) in
    let here : next' x ≡ y = f x (ground arith) ne ∙ ch.0 in
    (
      refl {a = x},
      px,
      h x (ground arith) ∙ b,
      rw here (
          Chain-append next prev next' prev' x (next x) node l (y ∷ ys) ch d pos e
            (λ q m o. f q (ground (arith, m)) o) (λ m. g (ground (arith, m)))
            (λ q m. h q (ground (arith, m))) i j),
    )

-- The node between `ys` and `zs` leaves the chain: what stands beside it is linked anew.
pub Chain-cut :
    (next prev next' prev' : ℕ → ℕ) (p c x l m : ℕ) (ys zs : List ℕ)
    → Chain next prev p c (ys ++ (x ∷ zs))
    → Distinct (ys ++ (x ∷ zs))
    → has p (ys ++ (x ∷ zs)) ≡ false
    → l ≡ last_or p ys
    → m ≡ first_or 0 zs
    → ((q : ℕ) → has q (ys ++ zs) ≡ true → (q == l) ≡ false → next' q ≡ next q)
    → (has l ys ≡ true → next' l ≡ m)
    → ((q : ℕ) → has q (ys ++ zs) ≡ true → (q == m) ≡ false → prev' q ≡ prev q)
    → (has m zs ≡ true → prev' m ≡ l)
    → Chain next' prev' p (first_or m ys) (ys ++ zs)
Chain-cut next prev next' prev' p c x l m [] [] ch d np e e' f g h i = e'
Chain-cut next prev next' prev' p c x l m [] (z ∷ zs) (k, px, b, (k', pz, b', ch)) (nx, (nz, d)) np
      e e' f g h i =
    let here : next' z ≡ next z = f z (ground arith) (ground (arith, e, np)) in
    (
      e',
      pz,
      (let back : prev' m ≡ l = i (ground (arith, e')) in ap prev' (sym e') ∙ back ∙ e),
      rw here (
          Chain-frame next prev next' prev' z (next z) zs
            (λ q j. f q (ground (arith, j)) (ground (arith, j, np, e)))
            (λ q j. h q (ground (arith, j)) (ground (arith, j, e', nz))) ch),
    )
Chain-cut next prev next' prev' p c x l m (y ∷ []) zs (k, py, b, ch) (ny, d) np e e' f g h i =
    let here : next' y ≡ m = ap next' (sym e) ∙ g (ground (arith, e)) in
    (
      refl {a = y},
      py,
      h y (ground arith) (ground (arith, e', ny)) ∙ b,
      rw here (
          Chain-cut next prev next' prev' y (next y) x l m [] zs ch d ny e e'
            (λ q j o. f q (ground (arith, j)) o) (λ j. absurd (ground (arith, j)))
            (λ q j o. h q (ground (arith, j)) o) i),
    )
Chain-cut next prev next' prev' p c x l m (y ∷ w ∷ ws) zs (k, py, b, ch) (ny, d) np e e' f g h i =
    let a = has-append y (w ∷ ws) (x ∷ zs) in
    let a' = has-append y (w ∷ ws) zs in
    let apart : has y (w ∷ ws ++ zs) ≡ false = ground (arith, a, a', ny) in
    let last : (y == l) ≡ false = rw e (last_or-cons y w ws (x ∷ zs) ny) in
    let first : (y == m) ≡ false =
      rw e' (first_or-append y 0 (w ∷ ws) zs apart (ground (arith, py))) in
    let here : next' y ≡ w = f y (ground arith) last ∙ ch.0 in
    (
      refl {a = y},
      py,
      h y (ground arith) first ∙ b,
      rw here (
          Chain-cut next prev next' prev' y (next y) x l m (w ∷ ws) zs ch d ny e e'
            (λ q j o. f q (ground (arith, j)) o) (λ j. g (ground (arith, j)))
            (λ q j o. h q (ground (arith, j)) o) i),
    )

first_or-head :
    (next prev : ℕ → ℕ) (c m node : ℕ) (ys zs : List ℕ)
    → Chain next prev 0 c (ys ++ (node ∷ zs))
    → has 0 (ys ++ (node ∷ zs)) ≡ false
    → first_or m ys ≡ (if last_or 0 ys == 0 then m else c)
first_or-head next prev c m node [] zs ch z = refl
first_or-head next prev c m node (y ∷ ys) zs ch z =
    let l = last_or-cons 0 y ys (node ∷ zs) z in let e = ch.0 in ground (arith, l, e)

-- what the links are once a node has left its chain
abbrev pub next_without : (next prev : ℕ → ℕ) (node : ℕ) → ℕ → ℕ
next_without next prev node = update (put_at (prev node) (next node) next) node 0

abbrev pub prev_without : (next prev : ℕ → ℕ) (node : ℕ) → ℕ → ℕ
prev_without next prev node = update (put_at (next node) (prev node) prev) node 0

pub Chain-take :
    (next prev : ℕ → ℕ) (c node : ℕ) (ys zs : List ℕ)
    → Chain next prev 0 c (ys ++ (node ∷ zs))
    → Distinct (ys ++ (node ∷ zs))
    → Chain
        (next_without next prev node)
        (prev_without next prev node)
        0
        (if prev node == 0 then next node else c)
        (ys ++ zs)
Chain-take next prev c node ys zs ch d =
    let z = Chain-has_null next prev 0 c (ys ++ (node ∷ zs)) ch in
    let (l, m) = Chain-at next prev 0 c node ys zs ch in
    let (d', out) = remove-Distinct node ys zs d in
    let a = has-append 0 ys (node ∷ zs) in
    let head = first_or-head next prev c (next node) node ys zs ch z in
    let cut =
      Chain-cut next prev (next_without next prev node) (prev_without next prev node) 0 c node
        (prev node) (next node) ys zs ch d z l m
        (λ q i o. let ne = has-ne q node (ys ++ zs) i out in ground (arith, ne, o))
        (λ i.
          let b = has-append (prev node) ys zs in
          let ne = has-ne (prev node) node (ys ++ zs) (ground (arith, b, i)) out in
          let nz = has-ne (prev node) 0 ys i (ground (arith, a, z)) in ground (arith, ne, nz))
        (λ q i o. let ne = has-ne q node (ys ++ zs) i out in ground (arith, ne, o))
        (λ i.
          let b = has-append (next node) ys zs in
          let ne = has-ne (next node) node (ys ++ zs) (ground (arith, b, i)) out in
          let nz = has-ne (next node) 0 zs i (ground (arith, a, z)) in ground (arith, ne, nz)) in
    subst (λ k. Chain (next_without next prev node) (prev_without next prev node) 0 k (ys ++ zs))
      (head ∙ ap (λ p. if p == 0 then next node else c) (sym l)) cut

-- A node of another chain keeps its links.
pub without-frame :
    (next prev : ℕ → ℕ) (c node q : ℕ) (ys zs : List ℕ)
    → Chain next prev 0 c (ys ++ (node ∷ zs))
    → ((r : ℕ) → has r (ys ++ (node ∷ zs)) ≡ true → (q == r) ≡ false)
    → (next_without next prev node q ≡ next q) × (prev_without next prev node q ≡ prev q)
without-frame next prev c node q ys zs ch away =
    let (l, m) = Chain-at next prev 0 c node ys zs ch in
    let n = has-append node ys (node ∷ zs) in
    let out = away node (ground (arith, n)) in
    let before : ((prev node == 0) ≡ true) ⊎ ((q == prev node) ≡ false) =
      elim (Bool-cases (prev node == 0)) [
        | inl e ↦ inl e
        | inr e ↦
            let i = last_or-member (prev node) ys l e in
            let a = has-append (prev node) ys (node ∷ zs) in
            inr (away (prev node) (ground (arith, a, i)))
      ] in
    let after : ((next node == 0) ≡ true) ⊎ ((q == next node) ≡ false) =
      elim (Bool-cases (next node == 0)) [
        | inl e ↦ inl e
        | inr e ↦
            let i = first_or-member (next node) zs m e in
            let a = has-append (next node) ys (node ∷ zs) in
            inr (away (next node) (ground (arith, a, i)))
      ] in
    (ground (arith, out, before), ground (arith, out, after))
