-- ===== src/Base/Lists.antt =====
-- Lists measured by native numbers, and lists of addresses with a Boolean membership test.
use Prim.Native.Nat.{ℕ, suc, ◌+◌, ◌≤◌}
use mathlib.Core.Path.{◌≡◌, refl, ap, subst, ◌∙◌}
use mathlib.Core.Logic.{◌≢◌, inl, inr}
use mathlib.Core.Bool.{Bool, true, false, ◌||◌}
use mathlib.Core.List.{List, [], ◌∷◌, ◌++◌}
use native.Mathlib.Omega.{arith}
use shm_next.Base.Tests.{◌==◌, if◌then◌else◌, Bool-cases, ==→eq}

module _ {ℓ} {A : Type ℓ} where
  abbrev pub length : List A → ℕ
  length [] = 0
  length (x ∷ xs) = suc (length xs)

  pub length-append : (xs ys : List A) → length (xs ++ ys) ≡ length xs + length ys
  length-append [] ys = omega arith
  length-append (x ∷ xs) ys = omega (arith, length-append xs ys)

abbrev pub has : ℕ → List ℕ → Bool
has a [] = false
has a (x ∷ xs) = (a == x) || has a xs

abbrev pub erase : ℕ → List ℕ → List ℕ
erase a [] = []
erase a (x ∷ xs) = if a == x then xs else x ∷ erase a xs

pub has-ne : (q c : ℕ) (xs : List ℕ) → has q xs ≡ true → has c xs ≡ false → (q == c) ≡ false
has-ne q c xs i o = elim (Bool-cases (q == c)) [
  | inl e ↦
      let i' : has c xs ≡ true = subst (λ k. has k xs ≡ true) (==→eq q c e) i in
      absurd (ground (arith, i', o))
  | inr e ↦ e
]

abbrev pub Distinct : List ℕ → Type 0
Distinct [] = Unit {0}
Distinct (x ∷ xs) = (has x xs ≡ false) × Distinct xs

pub length-erase : (a : ℕ) (xs : List ℕ) → has a xs ≡ true → length (erase a xs) + 1 ≡ length xs
length-erase a [] h = ground arith
length-erase a (x ∷ xs) h = ground (arith, length-erase a xs)

pub has-erase_ne : (a b : ℕ) (xs : List ℕ) → b ≢ a → has b (erase a xs) ≡ has b xs
has-erase_ne a b [] h = refl
has-erase_ne a b (x ∷ xs) h = ground (arith, has-erase_ne a b xs)

pub has-erase_self : (a : ℕ) (xs : List ℕ) → Distinct xs → has a (erase a xs) ≡ false
has-erase_self a [] d = refl
has-erase_self a (x ∷ xs) d = ground (arith, has-erase_self a xs d.1)

pub has-erase_le : (a b : ℕ) (xs : List ℕ) → has b xs ≡ false → has b (erase a xs) ≡ false
has-erase_le a b [] h = refl
has-erase_le a b (x ∷ xs) h = ground (arith, has-erase_le a b xs)

pub erase-Distinct : (a : ℕ) (xs : List ℕ) → Distinct xs → Distinct (erase a xs)
erase-Distinct a [] d = tt
erase-Distinct a (x ∷ xs) d = elim (Bool-cases (a == x)) [
  | inl e ↦ rw e d.1
  | inr e ↦ rw e (has-erase_le a x xs d.0, erase-Distinct a xs d.1)
]

-- A list of distinct members of another list is no longer than that.
pub length-le_of_has :
    (xs bs : List ℕ)
    → Distinct xs
    → ((a : ℕ) → has a xs ≡ true → has a bs ≡ true)
    → length xs ≤ length bs
length-le_of_has [] bs d h = omega arith
length-le_of_has (x ∷ xs) bs d h =
    let shorter = length-erase x bs (h x (ground arith)) in
    let rest =
      length-le_of_has xs (erase x bs) d.1
        λ a i. let ne : a ≢ x = ground arith in has-erase_ne x a bs ne ∙ h a (ground arith) in
    omega arith

pub has-of-erase : (a b : ℕ) (xs : List ℕ) → has b (erase a xs) ≡ true → has b xs ≡ true
has-of-erase a b [] h = h
has-of-erase a b (x ∷ xs) h = ground (arith, has-of-erase a b xs)

pub has-append : (a : ℕ) (xs ys : List ℕ) → has a (xs ++ ys) ≡ (has a xs || has a ys)
has-append a [] ys = refl
has-append a (x ∷ xs) ys = ground (arith, has-append a xs ys)

module _ {ℓ} {A : Type ℓ} where
  pub length-zero : (xs : List A) → length xs ≡ 0 → xs ≡ []
  length-zero [] h = refl
  length-zero (x ∷ xs) h = absurd (omega (arith, h))

  -- A list that is not empty has a last element.
  pub last-of :
      (xs : List A) (k : ℕ) → length xs ≡ suc k → (ys : List A) × (y : A) × (xs ≡ ys ++ (y ∷ []))
  last-of [] k h = absurd (omega (arith, h))
  last-of (x ∷ []) k h = ([], x, refl)
  last-of (x ∷ z ∷ zs) k h =
      let (ys, y, e) = last-of (z ∷ zs) (length zs) refl in (x ∷ ys, y, ap (λ l. x ∷ l) e)

abbrev pub rev_append : List ℕ → List ℕ → List ℕ
rev_append [] ys = ys
rev_append (x ∷ xs) ys = rev_append xs (x ∷ ys)

pub length-rev_append : (xs ys : List ℕ) → length (rev_append xs ys) ≡ length xs + length ys
length-rev_append [] ys = omega arith
length-rev_append (x ∷ xs) ys = omega (arith, length-rev_append xs (x ∷ ys))

pub has-rev_append : (q : ℕ) (xs ys : List ℕ) → has q (rev_append xs ys) ≡ (has q xs || has q ys)
has-rev_append q [] ys = refl
has-rev_append q (x ∷ xs) ys = let r = has-rev_append q xs (x ∷ ys) in ground (arith, r)

pub rev_append-Distinct :
    (xs ys : List ℕ)
    → Distinct xs
    → Distinct ys
    → ((q : ℕ) → has q xs ≡ true → has q ys ≡ false)
    → Distinct (rev_append xs ys)
rev_append-Distinct [] ys d e f = e
rev_append-Distinct (x ∷ xs) ys (n, d) e f =
    rev_append-Distinct xs (x ∷ ys) d (f x (ground arith), e)
      λ q i. let g = f q (ground (arith, i)) in ground (arith, g, has-ne q x xs i n)
