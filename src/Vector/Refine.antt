-- ===== src/Vector/Refine.antt =====
-- shared_memory_vector.h: a vector in use is a list, whatever calls are made.
use mathlib.Core.Path.{subst}
use shm_next.Base.{
  ℕ, ◌≡◌, refl, Bool, true, some, List, [], ◌∷◌, ◌++◌, ◌∙◌, sym, ap, arith, last-of, length,
}
use shm_next.Vector.{
  ElementAllocator, Vector, Run, done, Call, pure, ◌>>◌, emplace_back, pop_back, clear, reserve,
  is_empty, read,
}
use shm_next.Vector.Slots.{IsElementAllocator}
use shm_next.Vector.Ends.{Ends, returns, Ends-and_then, Ends-imp}
use shm_next.Vector.Growth.{IsVector, Outside, Apart, Becomes, Apart-trans, size-IsVector}
use shm_next.Vector.Reallocate.{Becomes-refl, reserve-Ends}
use shm_next.Vector.Contents.{emplace_back-Ends}
use shm_next.Vector.Shrinking.{Leaves, pop_back-Leaves, clear-Leaves}

pub data Operation (A : Type 0) : Type 0 where
  -- of the object in a slot
  emplace : (source : ℕ) → Operation A
  pop : Operation A
  remove_all : Operation A
  make_capacity : ℕ → Operation A

module _ {A : Type 0} where
  abbrev pub init : List A → List A
  init [] = []
  init (x ∷ []) = []
  init (x ∷ y ∷ ys) = x ∷ init (y ∷ ys)

  module _ (value : ℕ → A) where
    -- what an operation does to the list of the elements, where slot q holds `value q`
    abbrev pub expected : Operation A → List A → List A
    expected (emplace source) xs = xs ++ (value source ∷ [])
    expected pop xs = init xs
    expected remove_all xs = []
    expected (make_capacity n) xs = xs

    abbrev pub expected_all : List (Operation A) → List A → List A
    expected_all [] xs = xs
    expected_all (o ∷ os) xs = expected_all os (expected o xs)

  init-snoc : (xs : List A) (x : A) → init (xs ++ (x ∷ [])) ≡ xs
  init-snoc [] x = refl
  init-snoc (y ∷ []) x = refl
  init-snoc (y ∷ z ∷ zs) x = ap (λ l. y ∷ l) (init-snoc (z ∷ zs) x)

module _ {A W : Type 0} (al : ElementAllocator A W) where
  abbrev pub operate : Operation A → Call A W (Unit {0})
  operate (emplace source) = emplace_back al (read source)
  operate pop = pop_back al
  operate remove_all = clear al
  operate (make_capacity n) = reserve al n

  abbrev pub operate_all : List (Operation A) → Call A W (Unit {0})
  operate_all [] = pure tt
  operate_all (o ∷ os) = operate o >> operate_all os

  pop_back-empty : (v : Vector A W) → is_empty v ≡ true → pop_back al v ≡ done tt v
  unfolding pop_back
  pop_back-empty v h = rw (h, pop_back) refl

module _ {A W : Type 0} (al : ElementAllocator A W) (live : W → ℕ → Bool)
    (is : IsElementAllocator al live) (value : ℕ → A) where
  -- The object that an operation refers to stands in a slot of others.
  abbrev pub Given : Vector A W → Operation A → Type 0
  Given v (emplace source) = Outside live v source × (v.cell source ≡ some (value source))
  Given v _ = Unit {0}

  abbrev pub AllGiven : Vector A W → List (Operation A) → Type 0
  AllGiven v [] = Unit {0}
  AllGiven v (o ∷ os) = Given v o × AllGiven v os

  Given-Apart : (v u : Vector A W) (o : Operation A) → Apart live v u → Given v o → Given u o
  Given-Apart v u (emplace source) a (out, h) = let (same, out') = a source out in (out', same ∙ h)
  Given-Apart v u pop a g = tt
  Given-Apart v u remove_all a g = tt
  Given-Apart v u (make_capacity n) a g = tt

  AllGiven-Apart :
      (v u : Vector A W) (os : List (Operation A)) → Apart live v u → AllGiven v os → AllGiven u os
  AllGiven-Apart v u [] a g = tt
  AllGiven-Apart v u (o ∷ os) a (g, gs) = (Given-Apart v u o a g, AllGiven-Apart v u os a gs)

  Leaves-Ends :
      (v : Vector A W) (xs ys : List A) (r : Run A W (Unit {0}))
      → Leaves al live is v ys r
      → Ends r (λ _. Becomes live v ys) (Becomes live v xs)
  Leaves-Ends v xs ys r (v', e, b) = returns tt v' e b

  pop-Ends :
      (v : Vector A W) (xs : List A)
      → IsVector live v xs
      → Ends (pop_back al v) (λ _. Becomes live v (init xs)) (Becomes live v xs)
  pop-Ends v [] iv =
      returns tt v (pop_back-empty al v (ground (arith, size-IsVector live iv)))
        (Becomes-refl al live is v [] iv)
  pop-Ends v (x ∷ xs) iv =
      let (ys, y, e) = last-of (x ∷ xs) (length xs) refl in
      let (v', r, b) = pop_back-Leaves al live is v ys y (subst (IsVector live v) e iv) in
      returns tt v' r (subst (λ l. Becomes live v l v') (sym (ap init e ∙ init-snoc ys y)) b)

  -- One operation does to the elements what is expected, or throws and keeps them.
  pub operate-Ends :
      (o : Operation A) (v : Vector A W) (xs : List A)
      → IsVector live v xs
      → Given v o
      → Ends (operate al o v) (λ _. Becomes live v (expected value o xs)) (Becomes live v xs)
  operate-Ends (emplace source) v xs iv (out, h) =
      emplace_back-Ends al live is v xs (value source) source iv out h
  operate-Ends pop v xs iv g = pop-Ends v xs iv
  operate-Ends remove_all v xs iv g =
      Leaves-Ends v xs [] (clear al v) (clear-Leaves al live is v xs iv)
  operate-Ends (make_capacity n) v xs iv g =
      Ends-imp (reserve-Ends al live is v xs n iv) (λ _ v' b. b.0) λ v' b. b

  -- Some first operations of `os` were done.
  abbrev pub Stopped : List (Operation A) → Vector A W → List A → Vector A W → Type 0
  Stopped os v xs v' =
      (before after : List (Operation A)) × (before ++ after ≡ os)
      × Becomes live v (expected_all value before xs) v'

  -- Over an allocator that gives only slots that nobody owns, a sequence of operations on a well-formed
  -- vector ends with a well-formed vector: with the elements that the same operations give on a list,
  -- or, where one of them throws, with those that the operations before it give. What stands in the
  -- slots of others stays. Each object that an element is made of stands in a slot of others.
  pub operate_all-refines :
      (os : List (Operation A)) (v : Vector A W) (xs : List A)
      → IsVector live v xs
      → AllGiven v os
      → Ends
          (operate_all al os v)
          (λ _. Becomes live v (expected_all value os xs))
          (Stopped os v xs)
  operate_all-refines [] v xs iv g = returns tt v refl (Becomes-refl al live is v xs iv)
  operate_all-refines (o ∷ os) v xs iv (g, gs) =
      Ends-and_then (λ _. operate_all al os)
        (Ends-imp (operate-Ends o v xs iv g) (λ _ u b. b) λ u b. ([], o ∷ os, refl, b))
        λ _ u b.
          Ends-imp
            (operate_all-refines os u (expected value o xs) b.0 (AllGiven-Apart v u os b.1 gs))
            (λ _ v' b'. (b'.0, Apart-trans live v u v' b.1 b'.1))
            λ v' (before, after, e, b').
              (o ∷ before, after, ap (λ l. o ∷ l) e, (b'.0, Apart-trans live v u v' b.1 b'.1))
