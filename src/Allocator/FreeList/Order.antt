-- ===== src/Allocator/FreeList/Order.antt =====
-- The order of the free list: by size, then by address.
use shm_next.Base.{
  ℕ, suc, ◌≡◌, refl, true, false, List, [], ◌∷◌, ◌||◌, arith, ◌==◌, has, erase, Distinct, length,
  Bool-cases, inl, inr, has-erase_le,
}
use shm_next.Allocator.FreeList.{before}
use shm_next.Allocator.FreeList.Insert.{insert_by}

-- `x` stands before all of `xs`.
abbrev pub Ahead : (ℕ → ℕ) → ℕ → List ℕ → Type 0
Ahead size x xs = (y : ℕ) → has y xs ≡ true → before size x y ≡ true

abbrev pub Sorted : (ℕ → ℕ) → List ℕ → Type 0
Sorted size [] = Unit {0}
Sorted size (x ∷ xs) = Ahead size x xs × Sorted size xs

pub Sorted-Distinct : (size : ℕ → ℕ) (xs : List ℕ) → Sorted size xs → Distinct xs
Sorted-Distinct size [] s = tt
Sorted-Distinct size (x ∷ xs) (ahead, s) = (ground (arith, ahead x), Sorted-Distinct size xs s)

pub Sorted-congr :
    (size size' : ℕ → ℕ) (xs : List ℕ)
    → Sorted size xs
    → ((q : ℕ) → has q xs ≡ true → size' q ≡ size q)
    → Sorted size' xs
Sorted-congr size size' [] s same = tt
Sorted-congr size size' (x ∷ xs) (ahead, s) same = (
  λ y i. ground (arith, ahead y, same x, same y),
  Sorted-congr size size' xs s λ q i. same q (ground arith),
)

pub has-insert :
    (size : ℕ → ℕ) (b q : ℕ) (xs : List ℕ) → has q (insert_by size b xs) ≡ ((q == b) || has q xs)
has-insert size b q [] = refl
has-insert size b q (x ∷ xs) = ground (arith, has-insert size b q xs)

pub length-insert :
    (size : ℕ → ℕ) (b : ℕ) (xs : List ℕ) → length (insert_by size b xs) ≡ suc (length xs)
length-insert size b [] = refl
length-insert size b (x ∷ xs) = ground (arith, length-insert size b xs)

pub insert-Sorted :
    (size : ℕ → ℕ) (b : ℕ) (xs : List ℕ)
    → Sorted size xs
    → has b xs ≡ false
    → Sorted size (insert_by size b xs)
insert-Sorted size b [] s nb = ((λ y i. ground arith), tt)
insert-Sorted size b (x ∷ xs) (ahead, s) nb = elim (Bool-cases (before size x b)) [
  | inl first ↦ rw first (
    (λ y i. ground (arith, has-insert size b y xs, ahead y)),
    insert-Sorted size b xs s (ground arith),
  )
  | inr later ↦
      let next : before size b x ≡ true = ground arith in
      rw later ((λ y i. ground (arith, ahead y)), (ahead, s))
]

pub erase-Sorted : (size : ℕ → ℕ) (b : ℕ) (xs : List ℕ) → Sorted size xs → Sorted size (erase b xs)
erase-Sorted size b [] s = tt
erase-Sorted size b (x ∷ xs) (ahead, s) = elim (Bool-cases (b == x)) [
  | inl hit ↦ rw hit s
  | inr miss ↦
      rw miss ((λ y i. ground (arith, ahead y, has-erase_le b y xs)), erase-Sorted size b xs s)
]
