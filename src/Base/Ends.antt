-- ===== src/Base/Ends.antt =====
-- The ends of lists of addresses, and lists of distinct addresses with one more or one less.
use Prim.Native.Nat.{ℕ}
use mathlib.Core.Path.{◌≡◌, ap, sym, subst}
use mathlib.Core.Logic.{inl, inr}
use mathlib.Core.Bool.{true, false}
use mathlib.Core.List.{List, [], ◌∷◌, ◌++◌}
use native.Mathlib.Omega.{arith}
use shm_next.Base.Tests.{◌==◌, Bool-cases, ==→eq}
use shm_next.Base.Lists.{has, has-append, Distinct}

-- the last of the nodes, or `a`
abbrev pub last_or : ℕ → List ℕ → ℕ
last_or a [] = a
last_or a (x ∷ xs) = last_or x xs

-- the first of the nodes, or `b`
abbrev pub first_or : ℕ → List ℕ → ℕ
first_or b [] = b
first_or b (x ∷ xs) = x

pub last_or-cons :
    (a y : ℕ) (ys zs : List ℕ) → has a (y ∷ ys ++ zs) ≡ false → (a == last_or y ys) ≡ false
last_or-cons a y [] zs h = ground (arith, h)
last_or-cons a y (x ∷ xs) zs h = last_or-cons a x xs zs (ground (arith, h))

pub last_or-ne : (a y : ℕ) (ys : List ℕ) → has a (y ∷ ys) ≡ false → (a == last_or y ys) ≡ false
last_or-ne a y [] h = ground (arith, h)
last_or-ne a y (x ∷ xs) h = last_or-ne a x xs (ground (arith, h))

pub first_or-append :
    (q b : ℕ) (ys zs : List ℕ)
    → has q (ys ++ zs) ≡ false
    → (q == b) ≡ false
    → (q == first_or b zs) ≡ false
first_or-append q b [] [] h e = e
first_or-append q b [] (z ∷ zs) h e = ground (arith, h)
first_or-append q b (y ∷ ys) zs h e = first_or-append q b ys zs (ground (arith, h)) e

pub insert-Distinct :
    (node : ℕ) (ys zs : List ℕ)
    → has node (ys ++ zs) ≡ false
    → Distinct (ys ++ zs)
    → Distinct (ys ++ (node ∷ zs))
insert-Distinct node [] zs h d = (h, d)
insert-Distinct node (y ∷ ys) zs h (e, d) =
    let f = has-append y ys zs in
    let g = has-append y ys (node ∷ zs) in
    (ground (arith, h, e, f, g), insert-Distinct node ys zs (ground (arith, h)) d)

pub remove-Distinct :
    (x : ℕ) (ys zs : List ℕ)
    → Distinct (ys ++ (x ∷ zs))
    → Distinct (ys ++ zs) × (has x (ys ++ zs) ≡ false)
remove-Distinct x [] zs (e, d) = (d, e)
remove-Distinct x (y ∷ ys) zs (e, d) =
    let f = has-append y ys zs in
    let g = has-append y ys (x ∷ zs) in
    let (d', o) = remove-Distinct x ys zs d in
    ((ground (arith, e, f, g), d'), ground (arith, o, e, g))

-- A member stands between two parts of the list.
pub has-split :
    (x : ℕ) (xs : List ℕ) → has x xs ≡ true → (ys : List ℕ) × (zs : List ℕ) × (xs ≡ ys ++ (x ∷ zs))
has-split x [] h = absurd (ground (arith, h))
has-split x (y ∷ ys) h = elim (Bool-cases (x == y)) [
  | inl e ↦ ([], ys, ap (λ z. z ∷ ys) (sym (==→eq x y e)))
  | inr e ↦
      let (us, zs, f) = has-split x ys (ground (arith, h, e)) in (y ∷ us, zs, ap (λ l. y ∷ l) f)
]

last_or-has : (y : ℕ) (ys : List ℕ) → has (last_or y ys) (y ∷ ys) ≡ true
last_or-has y [] = ground arith
last_or-has y (x ∷ xs) = let r = last_or-has x xs in ground (arith, r)

-- The end of a list is a member of it, unless it is null.
pub last_or-member : (l : ℕ) (ys : List ℕ) → l ≡ last_or 0 ys → (l == 0) ≡ false → has l ys ≡ true
last_or-member l [] e h = absurd (ground (arith, e, h))
last_or-member l (y ∷ ys) e h = subst (λ z. has z (y ∷ ys) ≡ true) (sym e) (last_or-has y ys)

pub first_or-member : (l : ℕ) (ys : List ℕ) → l ≡ first_or 0 ys → (l == 0) ≡ false → has l ys ≡ true
first_or-member l [] e h = absurd (ground (arith, e, h))
first_or-member l (y ∷ ys) e h = ground (arith, e)
