-- ===== src/Vector/Shrinking.antt =====
-- shared_memory_vector.h: the calls that take elements from the end.
use mathlib.Core.Path.{subst}
use mathlib.Core.List.{append-nil, append_assoc}
use shm_next.Base.{
  ℕ, zero, suc, ◌+◌, ◌-◌, ◌<◌, ◌≡◌, refl, Bool, true, false, none, some, List, [], ◌∷◌, ◌++◌, arith,
  ltb, length, length-append, length-zero, last-of, ap, update_ne, ◌∙◌, sym, ap,
}
use shm_next.Vector.{
  ElementAllocator, Vector, Run, done, put, size, and_then, pop_back, pop_loop, clear, destroy_tail,
  destroy, is_empty,
}
use shm_next.Vector.Slots.{IsElementAllocator, Cells-frame, Cells-split}
use shm_next.Vector.Growth.{IsVector, Becomes, Apart-trans, size-IsVector}
use shm_next.Vector.Reallocate.{Becomes-refl}

module _ {A W : Type 0} (al : ElementAllocator A W) (live : W → ℕ → Bool)
    (is : IsElementAllocator al live) where
  destroy-run :
      (p : ℕ) (x : A) (v : Vector A W)
      → v.cell p ≡ some x
      → destroy al p v ≡ done tt (put p none (al.destroy p x v.world) v)
  unfolding destroy
  destroy-run p x v h = rw (h, destroy) refl

  pop_back-run :
      (v : Vector A W)
      → is_empty v ≡ false
      → pop_back al v ≡ destroy al (v.finish - 1) (record v { finish = v.finish - 1 })
  unfolding pop_back
  pop_back-run v h = rw (h, pop_back) refl

  -- A call that returns, and leaves a vector with the elements `ys`.
  abbrev pub Leaves : Vector A W → List A → Run A W (Unit {0}) → Type 0
  Leaves v ys r = (v' : Vector A W) × (r ≡ done tt v') × Becomes live v ys v'

  -- The last element is destroyed, and the end moves before it.
  pub drop_last-Leaves :
      (v : Vector A W) (xs : List A) (x : A)
      → IsVector live v (xs ++ (x ∷ []))
      → Leaves v xs (destroy al (v.finish - 1) (record v { finish = v.finish - 1 }))
  drop_last-Leaves v xs x iv =
      let l = length-append xs (x ∷ []) in
      let (cs, (h, _)) = Cells-split v.cell v.start xs (x ∷ []) iv.cells in
      let last : v.finish - 1 ≡ v.start + length xs = omega (arith, l, iv.finish) in
      let h' : v.cell (v.finish - 1) ≡ some x = ap v.cell last ∙ h in
      let w = al.destroy (v.finish - 1) x v.world in
      let same : (q : ℕ) → live w q ≡ live v.world q =
        λ q. is.destroyed (v.finish - 1) x v.world q in
      (
        put (v.finish - 1) none w (record v { finish = v.finish - 1 }),
        destroy-run (v.finish - 1) x (record v { finish = v.finish - 1 }) h',
        (
          record {
            cells =
                Cells-frame v.cell _ v.start xs cs
                  λ q i. update_ne v.cell (v.finish - 1) q none (ground (arith, i, last));
            finish = last;
            room = omega (arith, l, iv.room);
            null = iv.null;
            owned = λ q i. same q ∙ iv.owned q i;
            small = iv.small;
          },
          λ q (lv, o). (
            update_ne v.cell (v.finish - 1) q none (ground (arith, o, l, last, iv.room)),
            (same q ∙ lv, o),
          ),
        ),
      )

  pub pop_back-Leaves :
      (v : Vector A W) (xs : List A) (x : A)
      → IsVector live v (xs ++ (x ∷ []))
      → Leaves v xs (pop_back al v)
  pop_back-Leaves v xs x iv =
      let (v', r, b) = drop_last-Leaves v xs x iv in
      let l = length-append xs (x ∷ []) in
      let k = size-IsVector live iv in (v', pop_back-run v (ground (arith, k, l)) ∙ r, b)

  pop_loop-more :
      (fuel n : ℕ) (v u : Vector A W)
      → ltb n (size v) ≡ true
      → pop_back al v ≡ done tt u
      → pop_loop al (suc fuel) n v ≡ pop_loop al fuel n u
  unfolding pop_loop
  pop_loop-more fuel n v u h h' = rw (h, pop_loop) (ap (λ r. and_then r λ _. pop_loop al fuel n) h')

  pop_loop-end :
      (fuel n : ℕ) (v : Vector A W)
      → ltb n (size v) ≡ false
      → pop_loop al (suc fuel) n v ≡ done tt v
  unfolding pop_loop
  pop_loop-end fuel n v h = rw (h, pop_loop) refl

  -- The loop takes the elements behind the first `n`, as long as there is fuel.
  pop_loop-Leaves :
      (k fuel n : ℕ) (v : Vector A W) (xs ys : List A)
      → length ys ≡ k
      → length xs ≡ n
      → k < fuel
      → IsVector live v (xs ++ ys)
      → Leaves v xs (pop_loop al fuel n v)
  pop_loop-Leaves k zero n v xs ys e l h iv = absurd (omega (arith, h))
  pop_loop-Leaves zero (suc fuel) n v xs ys e l h iv =
      let s = size-IsVector live iv in
      let m = length-append xs ys in
      let iv' : IsVector live v xs =
        subst (IsVector live v) (ap (λ zs. xs ++ zs) (length-zero ys e) ∙ append-nil xs) iv in
      (v, pop_loop-end fuel n v (ground (arith, s, m, e, l)), Becomes-refl al live is v xs iv')
  pop_loop-Leaves (suc k) (suc fuel) n v xs ys e l h iv =
      let (zs, z, e') = last-of ys k e in
      let s = size-IsVector live iv in
      let m = length-append xs ys in
      let iv' : IsVector live v ((xs ++ zs) ++ (z ∷ [])) =
        subst (IsVector live v) (ap (λ l. xs ++ l) e' ∙ sym (append_assoc xs zs (z ∷ []))) iv in
      let (u, r, b) = pop_back-Leaves v (xs ++ zs) z iv' in
      let (v', r', b') =
        pop_loop-Leaves k fuel n u xs zs (omega (arith, e, ap length e', length-append zs (z ∷ [])))
          l (omega (arith, h)) b.0 in
      (
        v',
        pop_loop-more fuel n v u (ground (arith, s, m, e, l)) r ∙ r',
        (b'.0, Apart-trans live v u v' b.1 b'.1),
      )

  -- `clear` returns, and no element is left.
  pub clear-Leaves : (v : Vector A W) (xs : List A) → IsVector live v xs → Leaves v [] (clear al v)
  unfolding clear
  clear-Leaves v xs iv =
      pop_loop-Leaves (length xs) (size v + 1) 0 v [] xs refl refl
        (omega (arith, size-IsVector live iv)) iv

  -- `destroy_tail` returns, and leaves the elements before the new end.
  pub destroy_tail-Leaves :
      (v : Vector A W) (xs ys : List A)
      → IsVector live v (xs ++ ys)
      → Leaves v xs (destroy_tail al (length xs) v)
  unfolding destroy_tail
  destroy_tail-Leaves v xs ys iv =
      let s = size-IsVector live iv in
      pop_loop-Leaves (length ys) (size v + 1) (length xs) v xs ys refl refl
        (omega (arith, s, length-append xs ys)) iv
