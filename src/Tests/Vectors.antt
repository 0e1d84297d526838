-- ===== src/Tests/Vectors.antt =====
-- Vectors of numbers over a heap that hands out the slots behind all that it gave before; the number 13
-- cannot be copied.
use shm_next.Base.{
  ℕ, ◌+◌, ◌^◌, ◌≤◌, ◌<◌, ◌≡◌, refl, ap, Bool, true, false, not, ◌&&◌, ◌||◌, Option, none, some,
  List, [], ◌∷◌, arith, ltb, leb, ◌==◌, if◌then◌else◌, update, length,
}
use shm_next.Vector.{
  ElementAllocator, Vector, undefined, push_back, make_room, reallocate, reallocate_elsewhere,
  move_storage, copy_loop, construct_value, destroy_range, destroy,
}
use shm_next.Vector.Calls.{erase}
use shm_next.Vector.Slots.{within, IsElementAllocator}
use shm_next.Vector.Ends.{Ends}
use shm_next.Vector.Growth.{IsVector, Becomes}
use shm_next.Vector.Contents.{push_back-Ends}
use shm_next.Vector.Erase.{erase-Ends}
use shm_next.Vector.Refine.{
  Operation, emplace, pop, remove_all, make_capacity, operate_all, expected_all, Stopped,
  operate_all-refines,
}

data Change : Type 0 where
  given : (p n : ℕ) → Change
  taken : (p n : ℕ) → Change

abbrev live : List Change → ℕ → Bool
live [] q = false
live (given p n ∷ w) q = live w q || within p n q
live (taken p n ∷ w) q = live w q && not (within p n q)

abbrev top : List Change → ℕ
top [] = 1
top (given p n ∷ w) = if ltb (top w) (p + n) then p + n else top w
top (taken p n ∷ w) = top w

top-above : (w : List Change) (q : ℕ) → live w q ≡ true → q < top w
top-above [] q h = ground (arith, h)
top-above (given p n ∷ w) q h = let r = top-above w q in ground (arith, r, h)
top-above (taken p n ∷ w) q h = let r = top-above w q in ground (arith, r, h)

top-positive : (w : List Change) → 0 < top w
top-positive [] = omega arith
top-positive (given p n ∷ w) = let r = top-positive w in ground (arith, r)
top-positive (taken p n ∷ w) = top-positive w

abbrev supply : Bool → ℕ → List Change → Option ℕ × List Change
supply true n w = (some (top w), given (top w) n ∷ w)
supply false n w = (none, w)

abbrev widen : Bool → (p n : ℕ) → List Change → Bool × List Change
widen true p n w = (true, given p n ∷ w)
widen false p n w = (false, w)

abbrev heap : ElementAllocator ℕ (List Change)
heap = record {
  allocate = λ n w. supply (leb (top w + n) (2 ^ 63)) n w;
  try_expand = λ p old new w. widen ((p + old == top w) && leb (p + new) (2 ^ 63)) p new w;
  deallocate = λ p n w. taken p n ∷ w;
  construct = λ p x w. (not (x == 13), w);
  construct_default = λ p w. (some 0, w);
  assign = λ p x w. (not (x == 13), w);
  destroy = λ p x w. w;
}

supplied :
    (b : Bool) (n p : ℕ) (w : List Change)
    → leb (top w + n) (2 ^ 63) ≡ b
    → (supply b n w).0 ≡ some p
    → (0 < p)
      × (p + n ≤ 2 ^ 63)
      × ((q : ℕ) → within p n q ≡ true → live w q ≡ false)
      × ((q : ℕ) → live (supply b n w).1 q ≡ (live w q || within p n q))
supplied false n p w e h = absurd (ground (arith, h))
supplied true n p w e h =
    let h' : top w ≡ p = cc in
    (
      omega (arith, h', top-positive w),
      ground (arith, h', e),
      λ q i. let t = top-above w q in ground (arith, t, i, h'),
      λ q. ap (λ k. live w q || within k n q) h',
    )

not_supplied :
    (b : Bool) (n : ℕ) (w : List Change) (q : ℕ)
    → (supply b n w).0 ≡ none
    → live (supply b n w).1 q ≡ live w q
not_supplied false n w q h = refl
not_supplied true n w q h = absurd (ground (arith, h))

widened :
    (b : Bool) (p old new : ℕ) (w : List Change)
    → ((p + old == top w) && leb (p + new) (2 ^ 63)) ≡ b
    → (widen b p new w).0 ≡ true
    → (p + new ≤ 2 ^ 63)
      × ((q : ℕ) → within p new q ≡ true → within p old q ≡ false → live w q ≡ false)
      × ((q : ℕ) → live (widen b p new w).1 q ≡ (live w q || within p new q))
widened false p old new w e h = absurd (ground (arith, h))
widened true p old new w e h =
    (ground (arith, e), λ q i o. let t = top-above w q in ground (arith, t, i, o, e), λ q. refl)

not_widened :
    (b : Bool) (p n : ℕ) (w : List Change) (q : ℕ)
    → (widen b p n w).0 ≡ false
    → live (widen b p n w).1 q ≡ live w q
not_widened false p n w q h = refl
not_widened true p n w q h = absurd (ground (arith, h))

heap-IsElementAllocator : IsElementAllocator heap live
heap-IsElementAllocator = record {
  allocated = λ n p w h. supplied (leb (top w + n) (2 ^ 63)) n p w refl h;
  refused = λ n w h q. not_supplied (leb (top w + n) (2 ^ 63)) n w q h;
  expanded =
      λ p old new w h. widened ((p + old == top w) && leb (p + new) (2 ^ 63)) p old new w refl h;
  not_expanded =
      λ p old new w h q. not_widened ((p + old == top w) && leb (p + new) (2 ^ 63)) p new w q h;
  deallocated = λ p n w q. refl;
  constructed = λ p x w q. refl;
  defaulted = λ p w q. refl;
  assigned = λ p x w q. refl;
  destroyed = λ p x w q. refl;
}

-- the elements 10 and 20 in slots 1 and 2, which are full, and the number 5 in slot 3, elsewhere
abbrev pair : Vector ℕ (List Change)
pair = record {
  start = 1;
  finish = 3;
  end_of_storage = 3;
  cell = update (update (update (λ _. none) 1 (some 10)) 2 (some 20)) 3 (some 5);
  world = given 3 1 ∷ given 1 2 ∷ [];
}

pair-IsVector : IsVector live pair (10 ∷ 20 ∷ [])
pair-IsVector = record {
  cells = (refl, (refl, tt));
  finish = refl;
  room = omega arith;
  null = λ z. absurd (omega (arith, z));
  owned = λ q i. ground (arith, i);
  small = omega arith;
}

abbrev calls : List (Operation ℕ)
calls = emplace 3 ∷ pop ∷ make_capacity 9 ∷ emplace 3 ∷ remove_all ∷ []

-- the slot 3 of others holds 5
abbrev held_value : ℕ → ℕ
held_value q = 5

operate_all-refines_example :
    Ends
      (operate_all heap calls pair)
      (λ _. Becomes live pair (expected_all held_value calls (10 ∷ 20 ∷ [])))
      (Stopped heap live heap-IsElementAllocator held_value calls pair (10 ∷ 20 ∷ []))
operate_all-refines_example =
    operate_all-refines heap live heap-IsElementAllocator held_value calls pair (10 ∷ 20 ∷ [])
      pair-IsVector (((refl, refl), refl), (tt, (tt, (((refl, refl), refl), (tt, tt)))))

push_back-Ends_example :
    Ends
      (push_back heap 3 pair)
      (λ _. Becomes live pair (10 ∷ 20 ∷ 5 ∷ []))
      (Becomes live pair (10 ∷ 20 ∷ []))
push_back-Ends_example =
    push_back-Ends heap live heap-IsElementAllocator pair (10 ∷ 20 ∷ []) 5 3 pair-IsVector
      (refl, refl) refl

erase-Ends_example :
    Ends
      (erase heap 1 pair)
      (λ p v'. (p ≡ 1) × Becomes live pair (20 ∷ []) v')
      λ v'. (ys : List ℕ) × (length ys ≡ 2) × Becomes live pair ys v'
erase-Ends_example = erase-Ends heap live heap-IsElementAllocator pair [] 10 (20 ∷ []) pair-IsVector

-- `push_back` of the vector's own element, when it is full, reads the element after it was destroyed.
push_back-own-undefined : push_back heap 1 pair ≡ undefined
unfolding push_back make_room reallocate reallocate_elsewhere move_storage copy_loop construct_value
    destroy_range destroy
push_back-own-undefined = refl
