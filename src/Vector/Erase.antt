-- ===== src/Vector/Erase.antt =====
-- shared_memory_vector.h: erasing an element.
use mathlib.Core.Path.{subst}
use mathlib.Core.List.{append_assoc}
use shm_next.Base.{
  ℕ, zero, suc, ◌+◌, ◌-◌, ◌<◌, ◌≡◌, refl, Bool, true, false, some, List, [], ◌∷◌, ◌++◌, inl, inr,
  arith, ◌==◌, length, length-append, update_eq, update_ne, Bool-cases, ◌∙◌, sym, ap,
}
use shm_next.Vector.{ElementAllocator, Vector, done, thrown, pure, put, size, destroy, and_then}
use shm_next.Vector.Calls.{assign_value, assign_slot, erase_loop, erase}
use shm_next.Vector.Slots.{
  within, IsElementAllocator, Cells, Cells-at, Cells-frame, Cells-append, Cells-split, Frame,
  Frame-put, Frame-refl, Frame-trans,
}
use shm_next.Vector.Ends.{Ends, returns, throws, Ends-cong, Ends-and_then, Ends-imp, read-some}
use shm_next.Vector.Shrinking.{drop_last-Leaves}
use shm_next.Vector.Growth.{IsVector, Becomes, Apart-trans, size-IsVector}

module _ {A W : Type 0} (al : ElementAllocator A W) where
  assign_made :
      (p q : ℕ) (x : A) (v : Vector A W)
      → v.cell q ≡ some x
      → (al.assign p x v.world).0 ≡ true
      → assign_slot al p q v ≡ done tt (put p (some x) (al.assign p x v.world).1 v)
  unfolding assign_value
  assign_made p q x v h h' =
      ap (λ r. and_then r (assign_value al p)) (read-some q x v h) ∙ rw (h', assign_value) refl

  assign_failed :
      (p q : ℕ) (x : A) (v : Vector A W)
      → v.cell q ≡ some x
      → (al.assign p x v.world).0 ≡ false
      → assign_slot al p q v ≡ thrown (record v { world = (al.assign p x v.world).1 })
  unfolding assign_value
  assign_failed p q x v h h' =
      ap (λ r. and_then r (assign_value al p)) (read-some q x v h) ∙ rw (h', assign_value) refl

  erase_loop-end :
      (fuel p : ℕ) (v : Vector A W)
      → (p + 1 == v.finish) ≡ true
      → erase_loop al (suc fuel) p v ≡ done tt v
  unfolding erase_loop
  erase_loop-end fuel p v h = rw (h, erase_loop) refl

  erase_loop-more :
      (fuel p : ℕ) (v : Vector A W)
      → (p + 1 == v.finish) ≡ false
      → erase_loop al (suc fuel) p v
        ≡ and_then (assign_slot al p (p + 1) v) λ _. erase_loop al fuel (p + 1)
  unfolding erase_loop
  erase_loop-more fuel p v h = rw (h, erase_loop) refl

  erase-runs :
      (p : ℕ) (v : Vector A W)
      → (p == v.finish) ≡ false
      → erase al p v
        ≡ and_then (erase_loop al (size v) p v) λ _ u.
          and_then (destroy al (u.finish - 1) (record u { finish = u.finish - 1 })) λ _. pure p
  unfolding erase
  erase-runs p v h = rw (h, erase) refl

module _ {A W : Type 0} (al : ElementAllocator A W) (live : W → ℕ → Bool)
    (is : IsElementAllocator al live) where
  -- The slots from `p` on hold `xs` now.
  pub record Holds (p : ℕ) (xs : List A) (v v' : Vector A W) : Type 0 where
    pub frame : Frame p (length xs) v v'
    pub cells : Cells v'.cell p xs
    pub lives : (q : ℕ) → live v'.world q ≡ live v.world q

  Holds-put :
      (p : ℕ) (x : A) (w : W) (xs : List A) (v v' : Vector A W)
      → ((q : ℕ) → live w q ≡ live v.world q)
      → Holds (p + 1) xs (put p (some x) w v) v'
      → Holds p (x ∷ xs) v v'
  Holds-put p x w xs v v' same h = record {
    frame =
        Frame-trans (Frame-put p (suc (length xs)) p (some x) w v (ground arith)) h.frame
          (omega arith) (omega arith);
    cells = (
      (let out : within (p + 1) (length xs) p ≡ false = ground arith in
          h.frame.cells p out ∙ update_eq v.cell p p (some x) (ground arith)),
      h.cells,
    );
    lives = λ q. h.lives q ∙ same q;
  }

  -- The loop moves the elements down by a slot; where an assignment throws, each slot still has one.
  erase_loop-Ends :
      (zs : List A) (x : A) (fuel p : ℕ) (v : Vector A W)
      → length zs < fuel
      → p + 1 + length zs ≡ v.finish
      → Cells v.cell p (x ∷ zs)
      → Ends
          (erase_loop al fuel p v)
          (λ _ v'. (l : A) × Holds p (zs ++ (l ∷ [])) v v')
          λ v'. (ys : List A) × (length ys ≡ suc (length zs)) × Holds p ys v v'
  erase_loop-Ends zs x zero p v lt e cs = absurd (omega (arith, lt))
  erase_loop-Ends [] x (suc fuel) p v lt e cs =
      returns tt v (erase_loop-end al fuel p v (ground (arith, e)))
        (x, record { frame = Frame-refl p 1 v; cells = cs; lives = λ q. refl })
  erase_loop-Ends (y ∷ ys) x (suc fuel) p v lt e (h, (h', cs)) =
      let w = (al.assign p y v.world).1 in
      let v₁ : Vector A W = put p (some y) w v in
      let same : (q : ℕ) → live w q ≡ live v.world q = λ q. is.assigned p y v.world q in
      let cs₁ =
        Cells-frame v.cell v₁.cell (p + 1) (y ∷ ys) (h', cs)
          λ q i. update_ne v.cell p q (some y) (ground arith) in
      let step = erase_loop-more al fuel p v (ground (arith, e)) in
      elim (Bool-cases (al.assign p y v.world).0) [
        | inr a ↦
            throws (record v { world = w })
              (step
                ∙ ap (λ r. and_then r λ _. erase_loop al fuel (p + 1))
                    (assign_failed al p (p + 1) y v h' a))
              (
                x ∷ y ∷ ys,
                refl,
                record {
                  frame = record { start = refl; finish = refl; end = refl; cells = λ q o. refl };
                  cells = (h, (h', cs));
                  lives = same;
                },
              )
        | inl a ↦
            Ends-cong
              (step
                ∙ ap (λ r. and_then r λ _. erase_loop al fuel (p + 1))
                    (assign_made al p (p + 1) y v h' a))
              (Ends-imp
                (erase_loop-Ends ys y fuel (p + 1) v₁ (omega (arith, lt)) (omega (arith, e)) cs₁)
                (λ _ v' (l, d). (l, Holds-put p y w (ys ++ (l ∷ [])) v v' same d))
                λ v' (us, k, d). (y ∷ us, omega (arith, k), Holds-put p y w us v v' same d))
      ]

  Holds-Becomes :
      (v : Vector A W) (xs old new : List A) (v' : Vector A W)
      → IsVector live v (xs ++ old)
      → length new ≡ length old
      → Holds (v.start + length xs) new v v'
      → Becomes live v (xs ++ new) v'
  Holds-Becomes v xs old new v' iv e h =
      let f = h.frame in
      let l = length-append xs new in
      let m = length-append xs old in
      let (cs, _) = Cells-split v.cell v.start xs old iv.cells in
      (
        record {
          cells = Cells-at v'.cell (xs ++ new) (sym f.start) (
              Cells-append v'.cell v.start (v.start + length xs) xs new
                (Cells-frame v.cell v'.cell v.start xs cs λ q i. f.cells q (ground (arith, i))) refl
                h.cells);
          finish = omega (arith, f.start, f.finish, iv.finish, l, m, e);
          room = omega (arith, f.start, f.end, iv.room, l, m, e);
          null = λ z. f.end ∙ iv.null (sym f.start ∙ z);
          owned = λ q i. h.lives q ∙ iv.owned q (ground (arith, f.start, f.end, i));
          small = omega (arith, f.end, iv.small);
        },
        λ q (lv, o). (
          f.cells q (ground (arith, o, iv.room, m, e)),
          (h.lives q ∙ lv, ground (arith, f.start, f.end, o)),
        ),
      )

  -- Over an allocator that gives only slots that nobody owns, `erase` at an element of a well-formed
  -- vector takes the element out and gives its place; where an assignment throws, the vector has as many
  -- elements as before. The vector stays well formed, and what stands in the slots of others stays.
  pub erase-Ends :
      (v : Vector A W) (xs : List A) (x : A) (zs : List A)
      → IsVector live v (xs ++ (x ∷ zs))
      → Ends
          (erase al (v.start + length xs) v)
          (λ p v'. (p ≡ v.start + length xs) × Becomes live v (xs ++ zs) v')
          λ v'. (ys : List A) × (length ys ≡ suc (length xs + length zs)) × Becomes live v ys v'
  erase-Ends v xs x zs iv =
      let p = v.start + length xs in
      let m = length-append xs (x ∷ zs) in
      let (_, cs) = Cells-split v.cell v.start xs (x ∷ zs) iv.cells in
      Ends-cong (erase-runs al p v (ground (arith, iv.finish, m))) (
        Ends-and_then
          (λ _ u.
            and_then (destroy al (u.finish - 1) (record u { finish = u.finish - 1 })) λ _. pure p)
          (Ends-imp
            (erase_loop-Ends zs x (size v) p v (omega (arith, size-IsVector live iv, m))
              (omega (arith, iv.finish, m)) cs)
            (λ _ u h. h)
            λ u (ys, k, h). (
              xs ++ ys,
              omega (arith, k, length-append xs ys),
              Holds-Becomes v xs (x ∷ zs) ys u iv k h,
            ))
          λ _ u (l, h).
            let b =
              Holds-Becomes v xs (x ∷ zs) (zs ++ (l ∷ [])) u iv
                (omega (arith, length-append zs (l ∷ []))) h in
            let (v', r, b') =
              drop_last-Leaves al live is u (xs ++ zs) l
                (subst (IsVector live u) (sym (append_assoc xs zs (l ∷ []))) b.0) in
            returns p v' (ap (λ r. and_then r λ _. pure p) r)
              (refl, (b'.0, Apart-trans live v u v' b.1 b'.1)))
