-- ===== src/Vector/Slots.antt =====
-- shared_memory_vector.h: the loops over slots that construct and destroy elements.
use mathlib.Core.Path.{subst}
use shm_next.Base.{
  ℕ, suc, ◌+◌, ◌^◌, ◌≤◌, ◌<◌, ◌≡◌, refl, Bool, true, false, not, ◌&&◌, ◌||◌, Option, none, some,
  List, [], ◌∷◌, ◌++◌, inl, inr, arith, ltb, leb, ◌==◌, length, update_eq, update_ne, Bool-cases,
  ◌∙◌, ap,
}
use shm_next.Vector.{ElementAllocator, Vector, Run, done, put, destroy, and_then, destroy_range}

-- slot `q` is one of the `n` slots from `p` on
abbrev pub within : (p n q : ℕ) → Bool
within p n q = leb p q && ltb q (p + n)

-- The allocator: `live` tells which slots are not for it to give, because a block that it gave
-- holds them or because they lie elsewhere.
pub record IsElementAllocator {A W : Type 0} (al : ElementAllocator A W) (live : W → ℕ → Bool)
    : Type 0 where
  pub allocated :
      (n p : ℕ) (w : W)
      → (al.allocate n w).0 ≡ some p
      → (0 < p)
        × (p + n ≤ 2 ^ 63)
        × ((q : ℕ) → within p n q ≡ true → live w q ≡ false)
        × ((q : ℕ) → live (al.allocate n w).1 q ≡ (live w q || within p n q))
  pub refused :
      (n : ℕ) (w : W) → (al.allocate n w).0 ≡ none → (q : ℕ) → live (al.allocate n w).1 q ≡ live w q
  pub expanded :
      (p old new : ℕ) (w : W)
      → (al.try_expand p old new w).0 ≡ true
      → (p + new ≤ 2 ^ 63)
        × ((q : ℕ) → within p new q ≡ true → within p old q ≡ false → live w q ≡ false)
        × ((q : ℕ) → live (al.try_expand p old new w).1 q ≡ (live w q || within p new q))
  pub not_expanded :
      (p old new : ℕ) (w : W)
      → (al.try_expand p old new w).0 ≡ false
      → (q : ℕ) → live (al.try_expand p old new w).1 q ≡ live w q
  pub deallocated :
      (p n : ℕ) (w : W) (q : ℕ) → live (al.deallocate p n w) q ≡ (live w q && not (within p n q))
  pub constructed : (p : ℕ) (x : A) (w : W) (q : ℕ) → live (al.construct p x w).1 q ≡ live w q
  pub defaulted : (p : ℕ) (w : W) (q : ℕ) → live (al.construct_default p w).1 q ≡ live w q
  pub assigned : (p : ℕ) (x : A) (w : W) (q : ℕ) → live (al.assign p x w).1 q ≡ live w q
  pub destroyed : (p : ℕ) (x : A) (w : W) (q : ℕ) → live (al.destroy p x w) q ≡ live w q

module _ {A : Type 0} where
  -- from slot `p` on stand the objects `xs`
  abbrev pub Cells : (ℕ → Option A) → ℕ → List A → Type 0
  Cells cell p [] = Unit {0}
  Cells cell p (x ∷ xs) = (cell p ≡ some x) × Cells cell (p + 1) xs

  pub Cells-at :
      (cell : ℕ → Option A) → {p q : ℕ} → (xs : List A) → p ≡ q → Cells cell p xs → Cells cell q xs
  Cells-at cell xs e c = subst (λ p. Cells cell p xs) e c

  pub Cells-frame :
      (cell cell' : ℕ → Option A) (p : ℕ) (xs : List A)
      → Cells cell p xs
      → ((q : ℕ) → within p (length xs) q ≡ true → cell' q ≡ cell q)
      → Cells cell' p xs
  Cells-frame cell cell' p [] c same = tt
  Cells-frame cell cell' p (x ∷ xs) (h, c) same =
      (same p (ground arith) ∙ h, Cells-frame cell cell' (p + 1) xs c λ q i. same q (ground arith))

  pub Cells-append :
      (cell : ℕ → Option A) (p n : ℕ) (xs ys : List A)
      → Cells cell p xs
      → n ≡ p + length xs
      → Cells cell n ys
      → Cells cell p (xs ++ ys)
  Cells-append cell p n [] ys c e d = let e' : n ≡ p = omega arith in rw e' at d
  Cells-append cell p n (x ∷ xs) ys (h, c) e d =
      (h, Cells-append cell (p + 1) n xs ys c (omega arith) d)

  pub Cells-split :
      (cell : ℕ → Option A) (p : ℕ) (xs ys : List A)
      → Cells cell p (xs ++ ys)
      → Cells cell p xs × Cells cell (p + length xs) ys
  Cells-split cell p [] ys c = (tt, Cells-at cell ys (omega arith) c)
  Cells-split cell p (x ∷ xs) ys (h, c) =
      let (c', d) = Cells-split cell (p + 1) xs ys c in ((h, c'), Cells-at cell ys (omega arith) d)

-- From `v` to `v'`: the pointers stay, and so does every slot but the `n` from `p` on.
pub record Frame {A W : Type 0} (p n : ℕ) (v v' : Vector A W) : Type 0 where
  pub start : v'.start ≡ v.start
  pub finish : v'.finish ≡ v.finish
  pub end : v'.end_of_storage ≡ v.end_of_storage
  pub cells : (q : ℕ) → within p n q ≡ false → v'.cell q ≡ v.cell q

module _ {A W : Type 0} where
  pub Frame-put :
      (p n q : ℕ) (o : Option A) (w : W) (v : Vector A W)
      → within p n q ≡ true
      → Frame p n v (put q o w v)
  Frame-put p n q o w v i = record {
    start = refl;
    finish = refl;
    end = refl;
    cells = λ k h. let ne : (k == q) ≡ false = ground arith in update_ne v.cell q k o ne;
  }

  pub Frame-refl : (p n : ℕ) (v : Vector A W) → Frame p n v v
  Frame-refl p n v = record { start = refl; finish = refl; end = refl; cells = λ q o. refl }

  pub Frame-trans :
      {p n m k : ℕ} {v v' v'' : Vector A W}
      → Frame p n v v'
      → Frame m k v' v''
      → p ≤ m
      → m + k ≤ p + n
      → Frame p n v v''
  Frame-trans f g le le' = record {
    start = g.start ∙ f.start;
    finish = g.finish ∙ f.finish;
    end = g.end ∙ f.end;
    cells = λ q o. g.cells q (ground arith) ∙ f.cells q o;
  }

module _ {A W : Type 0} (al : ElementAllocator A W) where
  destroy_run :
      (p : ℕ) (x : A) (v : Vector A W)
      → v.cell p ≡ some x
      → destroy al p v ≡ done tt (put p none (al.destroy p x v.world) v)
  unfolding destroy
  destroy_run p x v h = rw (h, destroy) refl

  destroy_range_step :
      (p n : ℕ) (x : A) (v : Vector A W)
      → v.cell p ≡ some x
      → destroy_range al p (suc n) v
        ≡ destroy_range al (p + 1) n (put p none (al.destroy p x v.world) v)
  unfolding destroy_range
  destroy_range_step p n x v h =
      ap (λ r. and_then r λ _. destroy_range al (p + 1) n) (destroy_run p x v h)

module _ {A W : Type 0} (al : ElementAllocator A W) (live : W → ℕ → Bool)
    (is : IsElementAllocator al live) where
  -- A range of objects was destroyed.
  pub record Destroyed (p n : ℕ) (v : Vector A W) (r : Run A W (Unit {0})) : Type 0 where
    pub after : Vector A W
    pub returns : r ≡ done tt after
    pub frame : Frame p n v after
    pub gone : (q : ℕ) → within p n q ≡ true → after.cell q ≡ none
    pub lives : (q : ℕ) → live after.world q ≡ live v.world q

  pub destroy_range-Destroyed :
      (p : ℕ) (xs : List A) (v : Vector A W)
      → Cells v.cell p xs
      → Destroyed p (length xs) v (destroy_range al p (length xs) v)
  unfolding destroy_range
  destroy_range-Destroyed p [] v c = record {
    after = v;
    returns = refl;
    frame = Frame-refl p 0 v;
    gone = λ q i. ground arith;
    lives = λ q. refl;
  }
  destroy_range-Destroyed p (x ∷ xs) v (h, c) =
      let v₁ : Vector A W = put p none (al.destroy p x v.world) v in
      let f = Frame-put p (suc (length xs)) p none (al.destroy p x v.world) v (ground arith) in
      let c₁ =
        Cells-frame v.cell v₁.cell (p + 1) xs c
          λ q i. let ne : (q == p) ≡ false = ground arith in update_ne v.cell p q none ne in
      let d = destroy_range-Destroyed (p + 1) xs v₁ c₁ in
      record {
        after = d.after;
        returns = destroy_range_step al p (length xs) x v h ∙ d.returns;
        frame = Frame-trans f d.frame (omega arith) (omega arith);
        gone = λ q i. elim (Bool-cases (q == p)) [
          | inl e ↦
              let out : within (p + 1) (length xs) q ≡ false = ground arith in
              d.frame.cells q out ∙ update_eq v.cell p q none e
          | inr e ↦ d.gone q (ground arith)
        ];
        lives = λ q. d.lives q ∙ is.destroyed p x v.world q;
      }
