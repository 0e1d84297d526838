-- ===== src/Vector/Copies.antt =====
-- shared_memory_vector.h: the loops that copy elements to other slots.
use mathlib.Core.Path.{subst}
use shm_next.Base.{
  ℕ, suc, ◌+◌, ◌≤◌, ◌≡◌, refl, Bool, true, false, not, ◌&&◌, Option, some, List, [], ◌∷◌, ◌++◌,
  arith, length, length-append, update_eq, update_ne, ◌∙◌, ap,
}
use shm_next.Vector.{
  ElementAllocator, Vector, done, thrown, Call, put, construct_value, construct, rescue, deallocate,
  and_then, copy_loop, undo_copies,
}
use shm_next.Vector.Slots.{
  within, IsElementAllocator, Cells, Cells-at, Cells-frame, Cells-append, Frame, Frame-put,
  Frame-refl, Frame-trans, destroy_range-Destroyed,
}
use shm_next.Vector.Ends.{
  Ends, returns, throws, Ends-cong, Ends-imp, construct_value-Ends, construct-of-value,
}

module _ {A W : Type 0} (al : ElementAllocator A W) where
  copy_loop-made :
      (left c from to : ℕ) (undo : ℕ → Call A W (Unit {0})) (v w : Vector A W)
      → construct al (to + c) (from + c) v ≡ done tt w
      → copy_loop al (suc left) c from to undo v ≡ copy_loop al left (suc c) from to undo w
  unfolding copy_loop
  copy_loop-made left c from to undo v w h = rw (h, copy_loop) refl

  copy_loop-failed :
      (left c from to : ℕ) (undo : ℕ → Call A W (Unit {0})) (v w : Vector A W)
      → construct al (to + c) (from + c) v ≡ thrown w
      → copy_loop al (suc left) c from to undo v ≡ rescue (thrown w) (undo c)
  unfolding copy_loop
  copy_loop-failed left c from to undo v w h = rw (h, copy_loop) refl

length-snoc :
    {A : Type 0}
    → (x : A) → (ys : List A) → (c : ℕ) → c ≡ length ys
    → suc c ≡ length (ys ++ (x ∷ []))
length-snoc x ys c l = omega (arith, l, length-append ys (x ∷ []))

module _ {A W : Type 0} (al : ElementAllocator A W) (live : W → ℕ → Bool)
    (is : IsElementAllocator al live) where
  -- the copies undone and their block given back
  pub record Undone (to n : ℕ) (v v' : Vector A W) : Type 0 where
    pub frame : Frame to n v v'
    pub lives : (q : ℕ) → live v'.world q ≡ (live v.world q && not (within to n q))

  undo_copies-run :
      (to n : ℕ) (ys : List A) (v : Vector A W)
      → Cells v.cell to ys
      → length ys ≤ n
      → (v' : Vector A W) × (undo_copies al to n (length ys) v ≡ done tt v') × Undone to n v v'
  undo_copies-run to n ys v c le =
      let d = destroy_range-Destroyed al live is to ys v c in
      let w : Vector A W = record d.after { world = al.deallocate to n d.after.world } in
      (
        w,
        ap (λ r. and_then r λ _. deallocate al to n) d.returns,
        record {
          frame = record {
            start = d.frame.start;
            finish = d.frame.finish;
            end = d.frame.end;
            cells = λ q o. d.frame.cells q (ground arith);
          };
          lives = λ q.
              is.deallocated to n d.after.world q ∙ ap (λ b. b && not (within to n q)) (d.lives q);
        },
      )

  -- The slots from `p` on hold the copies, and nothing else changed.
  pub record Copied (p : ℕ) (xs : List A) (v v' : Vector A W) : Type 0 where
    pub frame : Frame p (length xs) v v'
    pub cells : Cells v'.cell p xs
    pub lives : (q : ℕ) → live v'.world q ≡ live v.world q

  module _ (from m to n : ℕ) (fits : m ≤ n)
      (apart : (q : ℕ) → within from m q ≡ true → within to n q ≡ false) where
    copy_loop-Undone :
        {Good : Unit {0} → Vector A W → Type 0}
        → (left c : ℕ) (x : A) (ys : List A) (v w : Vector A W) → c ≡ length ys
        → c ≤ n
        → Cells v.cell to ys
        → v.cell (from + c) ≡ some x
        → construct_value al (to + c) x v ≡ thrown w
        → w ≡ record v { world = (al.construct (to + c) x v.world).1 }
        → Ends (copy_loop al (suc left) c from to (undo_copies al to n) v) Good (Undone to n v)
    copy_loop-Undone left c x ys v w l le cs h e same =
        let u : Vector A W = record v { world = (al.construct (to + c) x v.world).1 } in
        let (v', run, undone) = undo_copies-run to n ys u cs (omega (arith, l)) in
        let failed =
          copy_loop-failed al left c from to (undo_copies al to n) v w
            (construct-of-value al (to + c) (from + c) x v h ∙ e) in
        let rest : rescue (thrown w) (undo_copies al to n c) ≡ thrown v' =
          ap (λ z. rescue (thrown z) (undo_copies al to n c)) same
          ∙ ap (λ k. rescue (thrown u) (undo_copies al to n k)) l
          ∙ ap (λ r. and_then r λ _ z. thrown z) run in
        throws v' (failed ∙ rest) (record {
          frame = record {
            start = undone.frame.start;
            finish = undone.frame.finish;
            end = undone.frame.end;
            cells = undone.frame.cells;
          };
          lives = λ q.
              undone.lives q
              ∙ ap (λ b. b && not (within to n q)) (is.constructed (to + c) x v.world q);
        })

    Copied-cons :
        (p : ℕ) (x : A) (xs : List A) (w : W) (v v' : Vector A W)
        → ((q : ℕ) → live w q ≡ live v.world q)
        → Copied (p + 1) xs (put p (some x) w v) v'
        → Copied p (x ∷ xs) v v'
    Copied-cons p x xs w v v' same d = record {
      frame =
          Frame-trans (Frame-put p (suc (length xs)) p (some x) w v (ground arith)) d.frame
            (omega arith) (omega arith);
      cells = (
        (let out : within (p + 1) (length xs) p ≡ false = ground arith in
            d.frame.cells p out ∙ update_eq v.cell p p (some x) (ground arith)),
        d.cells,
      );
      lives = λ q. d.lives q ∙ same q;
    }

    Copied-at :
        {p q : ℕ}
        → {xs : List A} → {v v' : Vector A W} → p ≡ q
        → Copied p xs v v'
        → Copied q xs v v'
    Copied-at {xs = xs} {v = v} {v' = v'} e d = subst (λ p. Copied p xs v v') e d

    Undone-put :
        (p : ℕ) (o : Option A) (w : W) (v v' : Vector A W)
        → within to n p ≡ true
        → ((q : ℕ) → live w q ≡ live v.world q)
        → Undone to n (put p o w v) v'
        → Undone to n v v'
    Undone-put p o w v v' i same d = record {
      frame = Frame-trans (Frame-put to n p o w v i) d.frame (omega arith) (omega arith);
      lives = λ q. d.lives q ∙ ap (λ b. b && not (within to n q)) (same q);
    }

    -- The loop ends: the slots from `to + c` on hold the copies, or, where a construction throws,
    -- every copy is destroyed and the block at `to` is given back.
    pub copy_loop-Ends :
        (xs ys : List A) (c : ℕ) (v : Vector A W)
        → c ≡ length ys
        → c + length xs ≡ m
        → Cells v.cell to ys
        → Cells v.cell (from + c) xs
        → Ends
            (copy_loop al (length xs) c from to (undo_copies al to n) v)
            (λ _ v'. Copied (to + c) xs v v')
            (Undone to n v)
    unfolding copy_loop
    copy_loop-Ends [] ys c v l e ds cs =
        returns tt v refl record { frame = Frame-refl (to + c) 0 v; cells = tt; lives = λ q. refl }
    copy_loop-Ends (x ∷ xs) ys c v l e ds (h, cs) =
        let w₁ = (al.construct (to + c) x v.world).1 in
        let v₁ : Vector A W = put (to + c) (some x) w₁ v in
        let live₁ : (q : ℕ) → live w₁ q ≡ live v.world q =
          λ q. is.constructed (to + c) x v.world q in
        let ds₁ : Cells v₁.cell to (ys ++ (x ∷ [])) =
          Cells-append v₁.cell to (to + c) ys (x ∷ [])
            (Cells-frame v.cell v₁.cell to ys ds
              λ q i. update_ne v.cell (to + c) q (some x) (ground arith))
            (omega (arith, l)) (update_eq v.cell (to + c) (to + c) (some x) (ground arith), tt) in
        let cs₁ : Cells v₁.cell (from + c + 1) xs =
          Cells-frame v.cell v₁.cell (from + c + 1) xs cs λ q i.
            let out = apart q (ground arith) in
            update_ne v.cell (to + c) q (some x) (ground arith) in
        elim (construct_value-Ends al (to + c) x v) [
          | throws w r same ↦ copy_loop-Undone (length xs) c x ys v w l (omega arith) ds h r same
          | returns _ w r same ↦
              Ends-cong
                (copy_loop-made al (length xs) c from to (undo_copies al to n) v v₁
                  (construct-of-value al (to + c) (from + c) x v h ∙ r ∙ ap (done tt) same))
                (Ends-imp
                  (copy_loop-Ends xs (ys ++ (x ∷ [])) (suc c) v₁ (length-snoc x ys c l)
                    (omega arith) ds₁ (Cells-at v₁.cell xs (omega arith) cs₁))
                  (λ _ v' d. Copied-cons (to + c) x xs w₁ v v' live₁ (Copied-at (omega arith) d))
                  λ v' d. Undone-put (to + c) (some x) w₁ v v' (ground arith) live₁ d)
        ]
