-- ===== src/Vector/Ends.antt =====
-- shared_memory_vector.h: how a call ends, and what its steps do.
use shm_next.Base.{ℕ, ◌≡◌, refl, true, false, some, Bool-cases, inl, inr, ◌∙◌, ap}
use shm_next.Vector.{
  ElementAllocator, Vector, Run, done, thrown, Call, put, read, and_then, construct_value,
  construct,
}

-- A call returns, and then `Good` holds, or throws, and then `Bad` holds.
pub data Ends {A W B : Type 0} (r : Run A W B) (Good : B → Vector A W → Type 0)
    (Bad : Vector A W → Type 0) : Type 0 where
  returns : (b : B) → (v : Vector A W) → r ≡ done b v → Good b v → Ends r Good Bad
  throws : (v : Vector A W) → r ≡ thrown v → Bad v → Ends r Good Bad

module _ {A W : Type 0} where
  pub Ends-cong :
      {B : Type 0}
      → {r r' : Run A W B} → {Good : B → Vector A W → Type 0} → {Bad : Vector A W → Type 0} → r ≡ r'
      → Ends r' Good Bad
      → Ends r Good Bad
  Ends-cong e (returns b v h g) = returns b v (e ∙ h) g
  Ends-cong e (throws v h g) = throws v (e ∙ h) g

  pub Ends-and_then :
      {B C : Type 0}
      → {r : Run A W B} → (k : B → Call A W C) → {Good : B → Vector A W → Type 0}
      → {Good' : C → Vector A W → Type 0} → {Bad : Vector A W → Type 0} → Ends r Good Bad
      → ((b : B) → (v : Vector A W) → Good b v → Ends (k b v) Good' Bad)
      → Ends (and_then r k) Good' Bad
  Ends-and_then k (returns b v e g) rest = Ends-cong (ap (λ r. and_then r k) e) (rest b v g)
  Ends-and_then k (throws v e g) rest = throws v (ap (λ r. and_then r k) e) g

  pub Ends-imp :
      {B : Type 0}
      → {r : Run A W B} → {Good Good' : B → Vector A W → Type 0} → {Bad Bad' : Vector A W → Type 0}
      → Ends r Good Bad
      → ((b : B) → (v : Vector A W) → Good b v → Good' b v)
      → ((v : Vector A W) → Bad v → Bad' v)
      → Ends r Good' Bad'
  Ends-imp (returns b v e g) f f' = returns b v e (f b v g)
  Ends-imp (throws v e g) f f' = throws v e (f' v g)

  pub read-some : (p : ℕ) (x : A) (v : Vector A W) → v.cell p ≡ some x → read p v ≡ done x v
  read-some p x v h = rw (h, read) refl

module _ {A W : Type 0} (al : ElementAllocator A W) where
  construct_value_made :
      (p : ℕ) (x : A) (v : Vector A W)
      → (al.construct p x v.world).0 ≡ true
      → construct_value al p x v ≡ done tt (put p (some x) (al.construct p x v.world).1 v)
  unfolding construct_value
  construct_value_made p x v h = rw (h, construct_value) refl

  construct_value_failed :
      (p : ℕ) (x : A) (v : Vector A W)
      → (al.construct p x v.world).0 ≡ false
      → construct_value al p x v ≡ thrown (record v { world = (al.construct p x v.world).1 })
  unfolding construct_value
  construct_value_failed p x v h = rw (h, construct_value) refl

  -- An element is constructed, or the world alone changes.
  pub construct_value-Ends :
      (p : ℕ) (x : A) (v : Vector A W)
      → Ends
          (construct_value al p x v)
          (λ _ v'. v' ≡ put p (some x) (al.construct p x v.world).1 v)
          λ v'. v' ≡ record v { world = (al.construct p x v.world).1 }
  construct_value-Ends p x v = elim (Bool-cases (al.construct p x v.world).0) [
    | inl e ↦ returns tt _ (construct_value_made p x v e) refl
    | inr e ↦ throws _ (construct_value_failed p x v e) refl
  ]

  pub construct-of-value :
      (p source : ℕ) (x : A) (v : Vector A W)
      → v.cell source ≡ some x
      → construct al p source v ≡ construct_value al p x v
  construct-of-value p source x v h =
      ap (λ r. and_then r (construct_value al p)) (read-some source x v h)
