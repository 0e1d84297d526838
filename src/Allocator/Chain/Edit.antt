-- ===== src/Allocator/Chain/Edit.antt =====
-- A block of a chain is split in two, or joined with the next one; the chain grows at its end and
-- loses its last block.
use mathlib.Core.Path.{subst}
use shm_next.Base.{
  ℕ, ◌+◌, ◌-◌, ◌%◌, ◌≤◌, ◌≡◌, refl, true, false, List, [], ◌∷◌, ◌++◌, ◌||◌, arith, ◌==◌,
  if◌then◌else◌, has, erase, Bool-cases, inl, inr, ◌∙◌, sym, ap, ==→eq, update, eq→==,
}
use shm_next.Allocator.Chain.{Chain, Chain-Member, Chain-le, Chain-congr}

abbrev pub insert_after : (b n : ℕ) → List ℕ → List ℕ
insert_after b n [] = []
insert_after b n (x ∷ bs) = if b == x then x ∷ n ∷ bs else x ∷ insert_after b n bs

pub has-insert_after :
    (b n q : ℕ) (bs : List ℕ)
    → has b bs ≡ true
    → has q (insert_after b n bs) ≡ ((q == n) || has q bs)
has-insert_after b n q [] i = cc
has-insert_after b n q (x ∷ bs) i = ground (arith, has-insert_after b n q bs)

-- the sizes after block `b` has kept `u` of its bytes
abbrev pub split_sizes : (ℕ → ℕ) → (b u : ℕ) → ℕ → ℕ
split_sizes size b u = update (update size (b + u) (size b - u)) b u

Chain-split_head :
    (size : ℕ → ℕ) (p e x u : ℕ) (bs : List ℕ)
    → Chain size p e (x ∷ bs)
    → 32 ≤ u
    → u % 16 ≡ 0
    → u + 32 ≤ size x
    → Chain (split_sizes size x u) p e (x ∷ (x + u) ∷ bs)
Chain-split_head size p e x u bs (h, l, r, c) lo m hi =
    let same : (q : ℕ) → has q bs ≡ true → split_sizes size x u q ≡ size q =
      λ q j. let above = (Chain-Member size (x + size x) e q bs c j).above in ground arith in
    let s : split_sizes size x u x ≡ u = ground arith in
    let s' : split_sizes size x u (x + u) ≡ size x - u = ground arith in
    let end : x + u + (size x - u) ≡ x + size x = omega arith in
    rw (s, s')
      (
        h,
        lo,
        m,
        (refl, omega arith, omega arith, rw end (Chain-congr size _ (x + size x) e bs c same)),
      )

pub Chain-split :
    (size : ℕ → ℕ) (p e b u : ℕ) (bs : List ℕ)
    → Chain size p e bs
    → has b bs ≡ true
    → 32 ≤ u
    → u % 16 ≡ 0
    → u + 32 ≤ size b
    → Chain (split_sizes size b u) p e (insert_after b (b + u) bs)
Chain-split size p e b u [] c i lo m hi = cc
Chain-split size p e b u (x ∷ bs) (h, l, r, c) i lo m hi = elim (Bool-cases (b == x)) [
  | inl hit ↦
      let eq = ==→eq b x hit in
      rw (eq, eq→== x x refl) (Chain-split_head size p e x u bs (h, l, r, c) lo m (rw eq at hi))
  | inr miss ↦
      let above = (Chain-Member size (x + size x) e b bs c (ground arith)).above in
      let s : split_sizes size b u x ≡ size x = ground arith in
      rw (miss, s) (h, l, r, Chain-split size (x + size x) e b u bs c (ground arith) lo m hi)
]

-- the sizes after block `b` has taken in the next one
abbrev pub merged_sizes : (ℕ → ℕ) → (b : ℕ) → ℕ → ℕ
merged_sizes size b = update size b (size b + size (b + size b))

Chain-merge_head :
    (size : ℕ → ℕ) (p e x y : ℕ) (bs : List ℕ)
    → Chain size p e (x ∷ y ∷ bs)
    → Chain (merged_sizes size x) p e (erase (x + size x) (x ∷ y ∷ bs))
Chain-merge_head size p e x y bs (h, l, r, (h', l', r', c)) =
    let same : (q : ℕ) → has q bs ≡ true → merged_sizes size x q ≡ size q =
      λ q j. let above = (Chain-Member size (y + size y) e q bs c j).above in ground arith in
    let s : merged_sizes size x x ≡ size x + size y = ground arith in
    let end : x + (size x + size y) ≡ y + size y = omega arith in
    let past : (x + size x == x) ≡ false = ground arith in
    rw (past, eq→== (x + size x) y h', s)
      (h, omega arith, omega arith, rw end (Chain-congr size _ (y + size y) e bs c same))

pub Chain-merge :
    (size : ℕ → ℕ) (p e b : ℕ) (bs : List ℕ)
    → Chain size p e bs
    → has b bs ≡ true
    → has (b + size b) bs ≡ true
    → Chain (merged_sizes size b) p e (erase (b + size b) bs)
Chain-merge size p e b [] c i j = cc
Chain-merge size p e b (x ∷ []) (h, l, r, c) i j = absurd (ground arith)
Chain-merge size p e b (x ∷ y ∷ bs) (h, l, r, c) i j = elim (Bool-cases (b == x)) [
  | inl hit ↦
      let eq = ==→eq b x hit in
      subst (λ z. Chain (merged_sizes size z) p e (erase (z + size z) (x ∷ y ∷ bs))) (sym eq)
        (Chain-merge_head size p e x y bs (h, l, r, c))
  | inr miss ↦
      let above = (Chain-Member size (x + size x) e b (y ∷ bs) c (ground arith)).above in
      let s : merged_sizes size b x ≡ size x = ground arith in
      let ne : (b + size b == x) ≡ false = ground arith in
      rw (ne, s)
        (h, l, r, Chain-merge size (x + size x) e b (y ∷ bs) c (ground arith) (ground arith))
]

-- More room behind the last block is a new block.
pub Chain-append :
    (size : ℕ → ℕ) (p e s : ℕ) (bs : List ℕ)
    → Chain size p e bs
    → 32 ≤ s
    → s % 16 ≡ 0
    → Chain (update size e s) p (e + s) (bs ++ e ∷ [])
Chain-append size p e s [] c lo m =
    let here : update size e s p ≡ s = ground arith in
    let here' : update size e s e ≡ s = ground arith in rw here' (c, lo, m, refl)
Chain-append size p e s (x ∷ bs) (h, l, r, c) lo m =
    let le = Chain-le size (x + size x) e bs c in
    let same : update size e s x ≡ size x = ground arith in
    rw same (h, l, r, Chain-append size (x + size x) e s bs c lo m)

Chain-nil : (size : ℕ → ℕ) (p e : ℕ) (bs : List ℕ) → Chain size p e bs → p ≡ e → bs ≡ []
Chain-nil size p e [] c eq = refl
Chain-nil size p e (x ∷ bs) (h, l, r, c) eq =
    absurd (omega (arith, Chain-le size (x + size x) e bs c))

-- The last block takes in more room behind it.
pub Chain-extend :
    (size : ℕ → ℕ) (p e b s : ℕ) (bs : List ℕ)
    → Chain size p e bs
    → has b bs ≡ true
    → b + size b ≡ e
    → s % 16 ≡ 0
    → Chain (update size b (size b + s)) p (e + s) bs
Chain-extend size p e b s [] c i end m = cc
Chain-extend size p e b s (x ∷ bs) (h, l, r, c) i end m = elim (Bool-cases (b == x)) [
  | inl hit ↦
      let eq = ==→eq b x hit in
      let last = Chain-nil size (x + size x) e bs c (rw eq at end) in
      let end' : x + size x ≡ e = rw eq at end in
      let here : update size b (size b + s) x ≡ size x + s = ground arith in
      rw (last, here) (h, omega arith, omega arith, omega arith)
  | inr miss ↦
      let above = (Chain-Member size (x + size x) e b bs c (ground arith)).above in
      let same : update size b (size b + s) x ≡ size x = ground arith in
      rw same (h, l, r, Chain-extend size (x + size x) e b s bs c (ground arith) end m)
]

-- The chain without its last block ends where that block began.
pub Chain-drop :
    (size : ℕ → ℕ) (p e b : ℕ) (bs : List ℕ)
    → Chain size p e bs
    → has b bs ≡ true
    → b + size b ≡ e
    → Chain size p b (erase b bs)
Chain-drop size p e b [] c i end = cc
Chain-drop size p e b (x ∷ bs) (h, l, r, c) i end = elim (Bool-cases (b == x)) [
  | inl hit ↦
      let eq = ==→eq b x hit in
      rw (hit, Chain-nil size (x + size x) e bs c (rw eq at end)) (h ∙ sym eq)
  | inr miss ↦
      let above = (Chain-Member size (x + size x) e b bs c (ground arith)).above in
      rw miss (h, l, r, Chain-drop size (x + size x) e b bs c (ground arith) end)
]

-- Where the first block is the only one, it may have another size, at another end.
pub Chain-only :
    (size : ℕ → ℕ) (p e s : ℕ) (bs : List ℕ)
    → Chain size p e bs
    → has p bs ≡ true
    → p + size p ≡ e
    → 32 ≤ s
    → s % 16 ≡ 0
    → Chain (update size p s) p (p + s) bs
Chain-only size p e s [] c i end lo m = cc
Chain-only size p e s (x ∷ bs) (h, l, r, c) i end lo m =
    let here : update size p s x ≡ s = ground arith in
    let last = Chain-nil size (x + size x) e bs c (rw h at end) in
    rw (last, here) (h, lo, m, ap (λ z. z + s) (sym h))
