-- ===== src/SharedList/Segments.antt =====
-- shared_memory_list.h: chains of nodes with both links.
use shm_next.Base.{
  ℕ, ◌≡◌, true, ◌||◌, List, [], ◌∷◌, ◌++◌, has, arith, ◌==◌, ◌∙◌, first_or, last_or,
}
use shm_next.SharedList.{Nodes}

module _ {A : Type 0} where
  -- The links go from `a` through the nodes `ns` to `b`, and back.
  abbrev pub Seg : (n : Nodes A) → ℕ → List ℕ → ℕ → Type 0
  Seg n a [] b = (n.next a ≡ b) × (n.prev b ≡ a)
  Seg n a (x ∷ xs) b = (n.next a ≡ x) × (n.prev x ≡ a) × Seg n x xs b

  pub Seg-frame :
      (n n' : Nodes A) (a : ℕ) (ns : List ℕ) (b : ℕ)
      → ((q : ℕ) → ((q == a) || has q ns) ≡ true → n'.next q ≡ n.next q)
      → ((q : ℕ) → ((q == b) || has q ns) ≡ true → n'.prev q ≡ n.prev q)
      → Seg n a ns b
      → Seg n' a ns b
  Seg-frame n n' a [] b f g (h, k) = (f a (ground arith) ∙ h, g b (ground arith) ∙ k)
  Seg-frame n n' a (x ∷ xs) b f g (h, k, s) = (
    f a (ground arith) ∙ h,
    g x (ground arith) ∙ k,
    Seg-frame n n' x xs b (λ q i. f q (ground (arith, i))) (λ q i. g q (ground (arith, i))) s,
  )

  -- Between the chains `ys` and `zs` stands `x`.
  pub Seg-at :
      (n : Nodes A) (a x : ℕ) (ys zs : List ℕ) (b : ℕ)
      → Seg n a (ys ++ (x ∷ zs)) b
      → (n.prev x ≡ last_or a ys) × (n.next x ≡ first_or b zs)
  Seg-at n a x [] [] b (h, k, (l, m)) = (k, l)
  Seg-at n a x [] (z ∷ zs) b (h, k, (l, m, s)) = (k, l)
  Seg-at n a x (y ∷ ys) zs b (h, k, s) = Seg-at n y x ys zs b s

  -- What stands in front of the chain `zs`.
  pub Seg-before :
      (n : Nodes A) (a : ℕ) (ys zs : List ℕ) (b : ℕ)
      → Seg n a (ys ++ zs) b
      → n.prev (first_or b zs) ≡ last_or a ys
  Seg-before n a [] [] b (h, k) = k
  Seg-before n a [] (z ∷ zs) b (h, k, s) = k
  Seg-before n a (y ∷ ys) zs b (h, k, s) = Seg-before n y ys zs b s

  pub Seg-first :
      (n : Nodes A) (a : ℕ) (ns : List ℕ) (b : ℕ) → Seg n a ns b → n.next a ≡ first_or b ns
  Seg-first n a [] b (h, k) = h
  Seg-first n a (x ∷ xs) b (h, k, s) = h
