-- ===== src/Vector/Growth.antt =====
-- shared_memory_vector.h: a well-formed vector, and the calls that move it to other storage.
use shm_next.Base.{
  ℕ, ◌+◌, ◌-◌, ◌^◌, ◌≤◌, ◌<◌, ◌≡◌, refl, Bool, true, false, not, ◌&&◌, ◌||◌, List, [], inl, inr,
  arith, ◌==◌, length, Bool-cases, ◌∙◌, sym, ap,
}
use shm_next.Vector.{
  ElementAllocator, Vector, done, Call, deallocate, if_storage, modify, pointers, size, capacity,
  ◌>>◌, and_then, destroy_range, copy_loop, undo_copies, move_storage,
}
use shm_next.Vector.Slots.{
  within, IsElementAllocator, Cells, Cells-at, Cells-frame, Frame, destroy_range-Destroyed,
}
use shm_next.Vector.Ends.{Ends, returns, Ends-cong, Ends-and_then, Ends-imp}
use shm_next.Vector.Copies.{Undone, copy_loop-Ends}

module _ {A W : Type 0} (live : W → ℕ → Bool) where
  -- The elements of `v` are `xs`; its storage has room for them and is its own.
  pub record IsVector (v : Vector A W) (xs : List A) : Type 0 where
    pub cells : Cells v.cell v.start xs
    pub finish : v.finish ≡ v.start + length xs
    pub room : v.start + length xs ≤ v.end_of_storage
    pub null : v.start ≡ 0 → v.end_of_storage ≡ 0
    pub owned :
        (q : ℕ) → within v.start (v.end_of_storage - v.start) q ≡ true → live v.world q ≡ true
    pub small : v.end_of_storage ≤ 2 ^ 63

  -- slot `q` belongs to something else
  abbrev pub Outside : Vector A W → ℕ → Type 0
  Outside v q = (live v.world q ≡ true) × (within v.start (v.end_of_storage - v.start) q ≡ false)

  -- What is not the vector's stays as it is, and does not become the vector's.
  abbrev pub Apart : Vector A W → Vector A W → Type 0
  Apart v v' = (q : ℕ) → Outside v q → (v'.cell q ≡ v.cell q) × Outside v' q

  -- `v` has become a vector with the elements `xs`
  abbrev pub Becomes : Vector A W → List A → Vector A W → Type 0
  Becomes v xs v' = IsVector v' xs × Apart v v'

  -- and its storage has become the `n` slots from `p` on
  abbrev pub Moves : Vector A W → List A → (p n : ℕ) → Vector A W → Type 0
  Moves v xs p n v' = Becomes v xs v' × (v'.start ≡ p) × (v'.end_of_storage ≡ p + n)

  pub Apart-trans : (u v w : Vector A W) → Apart u v → Apart v w → Apart u w
  Apart-trans u v w f g q o = let (e, o') = f q o in let (e', o'') = g q o' in (e' ∙ e, o'')

  pub size-IsVector : {v : Vector A W} → {xs : List A} → IsVector v xs → size v ≡ length xs
  size-IsVector is = ground (arith, is.finish, is.room, is.null)

  pub capacity-IsVector :
      {v : Vector A W} → {xs : List A} → IsVector v xs → capacity v ≡ v.end_of_storage - v.start
  capacity-IsVector is = ground (arith, is.room, is.null)

module _ {A W : Type 0} (al : ElementAllocator A W) (live : W → ℕ → Bool)
    (is : IsElementAllocator al live) where
  abbrev leave : (old_data old_size old_capacity new_data new_capacity : ℕ) → Call A W (Unit {0})
  leave old_data old_size old_capacity new_data new_capacity = do
    destroy_range al old_data old_size
    if_storage al old_data (deallocate al old_data old_capacity)
    modify (pointers new_data (new_data + old_size) (new_data + new_capacity))

  move_storage-eq :
      (new_data n k c : ℕ) (v : Vector A W)
      → size v ≡ k
      → capacity v ≡ c
      → move_storage al new_data n v
        ≡ and_then
            (copy_loop al k 0 v.start new_data (undo_copies al new_data n) v)
            λ _. leave v.start k c new_data n
  unfolding move_storage
  move_storage-eq new_data n k c v h h' =
      ap
        (λ j.
          and_then (copy_loop al j 0 v.start new_data (undo_copies al new_data n) v)
            λ _. leave v.start j (capacity v) new_data n)
        h
      ∙ ap
          (λ j.
            and_then (copy_loop al k 0 v.start new_data (undo_copies al new_data n) v)
              λ _. leave v.start k j new_data n)
          h'

  give_back :
      (p c : ℕ) (u : Vector A W)
      → (p ≡ 0 → c ≡ 0)
      → (w : W) × (if_storage al p (deallocate al p c) u ≡ done tt (record u { world = w }))
        × ((q : ℕ) → live w q ≡ (live u.world q && not (within p c q)))
  give_back p c u z = elim (Bool-cases (p == 0)) [
    | inl e ↦
        let c0 : c ≡ 0 = z (ground arith) in
        (u.world, rw (e, if_storage) refl, λ q. ground (arith, c0))
    | inr e ↦
        (al.deallocate p c u.world, rw (e, if_storage) refl, λ q. is.deallocated p c u.world q)
  ]

  leave-run :
      (p k c new_data n : ℕ) (u d : Vector A W) (w : W)
      → destroy_range al p k u ≡ done tt d
      → if_storage al p (deallocate al p c) d ≡ done tt (record d { world = w })
      → leave p k c new_data n u
        ≡ done tt (pointers new_data (new_data + k) (new_data + n) (record d { world = w }))
  leave-run p k c new_data n u d w h h' =
      ap
        (λ r. and_then r λ _.
          (if_storage al p (deallocate al p c)
            >> modify (pointers new_data (new_data + k) (new_data + n))))
        h
      ∙ ap (λ r. and_then r λ _. modify (pointers new_data (new_data + k) (new_data + n))) h'

  old_new-apart :
      (v : Vector A W) (xs : List A) (new_data n q : ℕ)
      → IsVector live v xs
      → (within new_data n q ≡ true → live v.world q ≡ false)
      → within new_data n q ≡ true
      → within v.start (v.end_of_storage - v.start) q ≡ false
  old_new-apart v xs new_data n q iv fresh i =
      let new = fresh i in let old = iv.owned q in ground (arith, new, old)

  Undone-Becomes :
      (v : Vector A W) (xs : List A) (new_data n : ℕ) (w : W) (v' : Vector A W)
      → IsVector live v xs
      → ((q : ℕ) → within new_data n q ≡ true → live v.world q ≡ false)
      → ((q : ℕ) → live w q ≡ (live v.world q || within new_data n q))
      → Undone al live is new_data n (record v { world = w }) v'
      → Becomes live v xs v'
  Undone-Becomes v xs new_data n w v' iv fresh lives u =
      let f = u.frame in
      let same : (q : ℕ) → live v'.world q ≡ live v.world q =
        λ q. let l = u.lives q in let m = lives q in let fr = fresh q in ground (arith, l, m, fr) in
      (
        record {
          cells = Cells-at v'.cell xs (sym f.start) (
              Cells-frame v.cell v'.cell v.start xs iv.cells λ q i.
                let s = old_new-apart v xs new_data n q iv (fresh q) in
                f.cells q (ground (arith, s, iv.room)));
          finish = omega (arith, f.start, f.finish, iv.finish);
          room = omega (arith, f.start, f.end, iv.room);
          null = λ z. f.end ∙ iv.null (sym f.start ∙ z);
          owned = λ q i. same q ∙ iv.owned q (ground (arith, f.start, f.end, i));
          small = omega (arith, f.end, iv.small);
        },
        λ q (l, o).
            let fr = fresh q in
            (f.cells q (ground (arith, fr, l)), (same q ∙ l, ground (arith, f.start, f.end, o))),
      )

  leave-Ends :
      (v : Vector A W) (xs : List A) (new_data n : ℕ) (u : Vector A W)
      → IsVector live v xs
      → 0 < new_data
      → length xs ≤ n
      → new_data + n ≤ 2 ^ 63
      → ((q : ℕ) → within new_data n q ≡ true → live v.world q ≡ false)
      → ((q : ℕ) → live u.world q ≡ (live v.world q || within new_data n q))
      → Frame new_data (length xs) v u
      → Cells u.cell new_data xs
      → Ends
          (leave v.start (length xs) (v.end_of_storage - v.start) new_data n u)
          (λ _. Moves live v xs new_data n)
          (Becomes live v xs)
  leave-Ends v xs new_data n u iv pos le small fresh lives f cs =
      let sep : (q : ℕ)
          → within new_data n q ≡ true
          → within v.start (v.end_of_storage - v.start) q ≡ false =
        λ q i. old_new-apart v xs new_data n q iv (fresh q) i in
      let old : Cells u.cell v.start xs =
        Cells-frame v.cell u.cell v.start xs iv.cells
          λ q i. let s = sep q in f.cells q (ground (arith, s, iv.room)) in
      let d = destroy_range-Destroyed al live is v.start xs u old in
      let (w, run, gone) =
        give_back v.start (v.end_of_storage - v.start) d.after (λ z. ground (arith, z, iv.null)) in
      returns tt
        (pointers new_data (new_data + length xs) (new_data + n) (record d.after { world = w }))
        (leave-run v.start (length xs) (v.end_of_storage - v.start) new_data n u d.after w d.returns
          run)
        (
          (
            record {
              cells = Cells-frame u.cell d.after.cell new_data xs cs λ q i.
                  let s = sep q (ground arith) in d.frame.cells q (ground (arith, s, iv.room));
              finish = refl {a = new_data + length xs};
              room = omega arith;
              null = λ z. omega arith;
              owned = λ q i.
                  let i' : within new_data n q ≡ true = ground (arith, i) in
                  let s = sep q i' in
                  let g = gone q in
                  let l = d.lives q in let m = lives q in ground (arith, g, l, m, s, i');
              small = small;
            },
            λ q (l, o).
                let g = gone q in
                let e = d.lives q in
                let m = lives q in
                let fr = fresh q in
                (
                  d.frame.cells q (ground (arith, o, iv.room))
                      ∙ f.cells q (ground (arith, fr, l, le)),
                  (ground (arith, g, e, m, l, o), ground (arith, fr, l)),
                ),
          ),
          refl {a = new_data},
          refl {a = new_data + n},
        )

  -- Where a block was given, the elements move to it, or an exception leaves the vector as it was.
  pub move_storage-Ends :
      (v : Vector A W) (xs : List A) (new_data n : ℕ) (w : W)
      → IsVector live v xs
      → 0 < new_data
      → length xs ≤ n
      → new_data + n ≤ 2 ^ 63
      → ((q : ℕ) → within new_data n q ≡ true → live v.world q ≡ false)
      → ((q : ℕ) → live w q ≡ (live v.world q || within new_data n q))
      → Ends
          (move_storage al new_data n (record v { world = w }))
          (λ _. Moves live v xs new_data n)
          (Becomes live v xs)
  move_storage-Ends v xs new_data n w iv pos le small fresh lives =
      let u : Vector A W = record v { world = w } in
      Ends-cong
        (move_storage-eq new_data n (length xs) (v.end_of_storage - v.start) u
          (size-IsVector live iv) (capacity-IsVector live iv))
        (Ends-and_then (λ _. leave v.start (length xs) (v.end_of_storage - v.start) new_data n)
          (Ends-imp
            (copy_loop-Ends al live is v.start (length xs) new_data n le
              (λ q i.
                let s = old_new-apart v xs new_data n q iv (fresh q) in
                ground (arith, s, iv.room, i))
              xs [] 0 u refl (omega arith) tt (Cells-at v.cell xs (omega arith) iv.cells))
            (λ _ v₁ c. c) (λ v₁ c. Undone-Becomes v xs new_data n w v₁ iv fresh lives c))
          λ _ v₁ c.
            leave-Ends v xs new_data n v₁ iv pos le small fresh (λ q. c.lives q ∙ lives q)
              (record {
                start = c.frame.start;
                finish = c.frame.finish;
                end = c.frame.end;
                cells = λ q o. c.frame.cells q (ground arith);
              })
              (Cells-at v₁.cell xs (omega arith) c.cells))
