-- ===== src/SharedList/Linking.antt =====
-- shared_memory_list.h: `link_between` and `unlink` in a chain of nodes.
use mathlib.Core.Path.{subst}
use shm_next.Base.{
  ℕ, ◌≡◌, false, List, [], ◌∷◌, ◌++◌, has, Distinct, has-append, arith, ◌==◌, ◌∙◌, sym, first_or,
  first_or-append, last_or, last_or-cons,
}
use shm_next.SharedList.{Nodes, set_prev, set_next, link_between, unlink}
use shm_next.SharedList.Segments.{Seg, Seg-frame, Seg-at}

module _ {A : Type 0} where
  link_between-next :
      (p pos node q : ℕ) (n : Nodes A)
      → (q == p) ≡ false
      → (q == node) ≡ false
      → (link_between p pos node n).next q ≡ n.next q
  link_between-next p pos node q n e f = ground (arith, e, f)

  link_between-prev :
      (p pos node q : ℕ) (n : Nodes A)
      → (q == pos) ≡ false
      → (q == node) ≡ false
      → (link_between p pos node n).prev q ≡ n.prev q
  link_between-prev p pos node q n e f = ground (arith, e, f)

  link_behind-Seg :
      (n : Nodes A) (a node : ℕ) (zs : List ℕ) (b : ℕ)
      → Seg n a zs b
      → has node (a ∷ b ∷ zs) ≡ false
      → has a zs ≡ false
      → has b zs ≡ false
      → Distinct zs
      → Seg (link_between a (first_or b zs) node n) a (node ∷ zs) b
  link_behind-Seg n a node [] b (h, k) out na nb d =
      (ground (arith, out), ground (arith, out), (ground (arith, out), ground (arith, out)))
  link_behind-Seg n a node (z ∷ zs) b (h, k, s) out na nb d = (
    ground (arith, out),
    ground (arith, out),
    (
      ground (arith, out),
      ground (arith, out),
      Seg-frame n (link_between a z node n) z zs b
          (λ q i. link_between-next a z node q n (ground (arith, i, na)) (ground (arith, i, out)))
          (λ q i.
            link_between-prev a z node q n (ground (arith, i, nb, d)) (ground (arith, i, out)))
          s,
    ),
  )

  -- A node linked between the chains `ys` and `zs` stands there.
  pub link_between-Seg :
      (n : Nodes A) (a node : ℕ) (ys zs : List ℕ) (b : ℕ)
      → Seg n a (ys ++ zs) b
      → has node (a ∷ b ∷ ys ++ zs) ≡ false
      → has a (ys ++ zs) ≡ false
      → has b (ys ++ zs) ≡ false
      → Distinct (ys ++ zs)
      → Seg (link_between (last_or a ys) (first_or b zs) node n) a (ys ++ (node ∷ zs)) b
  link_between-Seg n a node [] zs b s out na nb d = link_behind-Seg n a node zs b s out na nb d
  link_between-Seg n a node (y ∷ ys) zs b (h, k, s) out na nb (ny, d) = (
    link_between-next (last_or y ys) (first_or b zs) node a n (last_or-cons a y ys zs na)
          (ground (arith, out))
        ∙ h,
    link_between-prev (last_or y ys) (first_or b zs) node y n
          (first_or-append y b ys zs ny (ground (arith, nb))) (ground (arith, out))
        ∙ k,
    link_between-Seg n y node ys zs b s (ground (arith, out)) ny (ground (arith, nb)) d,
  )

  abbrev cut : (p m x : ℕ) → Nodes A → Nodes A
  cut p m x n = set_next x x (set_prev x x (set_prev m p (set_next p m n)))

  cut-next :
      (p m x q : ℕ) (n : Nodes A)
      → (q == p) ≡ false
      → (q == x) ≡ false
      → (cut p m x n).next q ≡ n.next q
  cut-next p m x q n e f = ground (arith, e, f)

  cut-prev :
      (p m x q : ℕ) (n : Nodes A)
      → (q == m) ≡ false
      → (q == x) ≡ false
      → (cut p m x n).prev q ≡ n.prev q
  cut-prev p m x q n e f = ground (arith, e, f)

  cut_behind-Seg :
      (n : Nodes A) (a x : ℕ) (zs : List ℕ) (b : ℕ)
      → Seg n a (x ∷ zs) b
      → has a (x ∷ zs) ≡ false
      → has b (x ∷ zs) ≡ false
      → Distinct (x ∷ zs)
      → Seg (cut a (first_or b zs) x n) a zs b
  cut_behind-Seg n a x [] b s na nb d = (ground (arith, na), ground (arith, nb))
  cut_behind-Seg n a x (z ∷ zs) b (h, k, (l, m, s)) na nb (nx, (nz, d)) = (
    ground (arith, na),
    ground (arith, nx),
    Seg-frame n (cut a z x n) z zs b
        (λ q i. cut-next a z x q n (ground (arith, i, na)) (ground (arith, i, nx)))
        (λ q i. cut-prev a z x q n (ground (arith, i, nb, nz)) (ground (arith, i, nb, nx))) s,
  )

  cut-Seg :
      (n : Nodes A) (a x : ℕ) (ys zs : List ℕ) (b : ℕ)
      → Seg n a (ys ++ (x ∷ zs)) b
      → has a (ys ++ (x ∷ zs)) ≡ false
      → has b (ys ++ (x ∷ zs)) ≡ false
      → Distinct (ys ++ (x ∷ zs))
      → Seg (cut (last_or a ys) (first_or b zs) x n) a (ys ++ zs) b
  cut-Seg n a x [] zs b s na nb d = cut_behind-Seg n a x zs b s na nb d
  cut-Seg n a x (y ∷ ys) zs b (h, k, s) na nb (ny, d) =
      let e = has-append a ys (x ∷ zs) in
      let f = has-append y ys (x ∷ zs) in
      let g = has-append y ys zs in
      (
        cut-next (last_or y ys) (first_or b zs) x a n (last_or-cons a y ys (x ∷ zs) na)
              (ground (arith, na, e))
            ∙ h,
        cut-prev (last_or y ys) (first_or b zs) x y n
              (first_or-append y b ys zs (ground (arith, ny, f, g)) (ground (arith, nb)))
              (ground (arith, ny, f))
            ∙ k,
        cut-Seg n y x ys zs b s ny (ground (arith, nb)) d,
      )

  -- A node unlinked between the chains `ys` and `zs` leaves them joined.
  pub unlink-Seg :
      (n : Nodes A) (a x : ℕ) (ys zs : List ℕ) (b : ℕ)
      → Seg n a (ys ++ (x ∷ zs)) b
      → has a (ys ++ (x ∷ zs)) ≡ false
      → has b (ys ++ (x ∷ zs)) ≡ false
      → Distinct (ys ++ (x ∷ zs))
      → Seg (unlink x n) a (ys ++ zs) b
  unlink-Seg n a x ys zs b s na nb d =
      let (p, m) = Seg-at n a x ys zs b s in
      subst (λ p. Seg (cut p (n.next x) x n) a (ys ++ zs) b) (sym p)
        (subst (λ m. Seg (cut (last_or a ys) m x n) a (ys ++ zs) b) (sym m)
          (cut-Seg n a x ys zs b s na nb d))
