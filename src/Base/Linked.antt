-- ===== src/Base/Linked.antt =====
-- What a chain of `next` pointers stands for: a list of addresses. The null pointer is 0.
use Prim.Native.Nat.{ℕ, ◌<◌}
use mathlib.Core.Bool.{true, false}
use mathlib.Core.List.{List, [], ◌∷◌}
use mathlib.Core.Path.{◌≡◌, refl}
use native.Mathlib.Omega.{arith}
use shm_next.Base.Lists.{has}

-- From `p` the pointers lead through `xs` to null.
abbrev pub Links : (ℕ → ℕ) → ℕ → List ℕ → Type 0
Links next p [] = p ≡ 0
Links next p (x ∷ xs) = (p ≡ x) × (0 < x) × Links next (next x) xs

pub Links-frame :
    (next next' : ℕ → ℕ) (p : ℕ) (xs : List ℕ)
    → Links next p xs
    → ((q : ℕ) → has q xs ≡ true → next' q ≡ next q)
    → Links next' p xs
Links-frame next next' p [] l same = l
Links-frame next next' p (x ∷ xs) (e, pos, l) same =
    let here : next' x ≡ next x = same x (ground arith) in
    (e, pos, rw here (Links-frame next next' (next x) xs l λ q i. same q (ground arith)))

-- Null is on no list.
pub Links-has_null : (next : ℕ → ℕ) (p : ℕ) (xs : List ℕ) → Links next p xs → has 0 xs ≡ false
Links-has_null next p [] l = refl
Links-has_null next p (x ∷ xs) (e, pos, l) = ground (arith, Links-has_null next (next x) xs l)
