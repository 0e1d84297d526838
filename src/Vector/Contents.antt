-- ===== src/Vector/Contents.antt =====
-- shared_memory_vector.h: what the calls at the end of the vector do to its elements.
use shm_next.Base.{
  ℕ, ◌+◌, ◌<◌, ◌≡◌, Bool, some, List, [], ◌∷◌, ◌++◌, arith, length, length-append, update_eq,
  update_ne, ◌∙◌, ap,
}
use shm_next.Vector.{
  ElementAllocator, Vector, done, thrown, put, construct, construct_value, move_finish, and_then,
  push_back, emplace_back, read,
}
use shm_next.Vector.Slots.{IsElementAllocator, Cells-frame, Cells-append}
use shm_next.Vector.Ends.{
  Ends, returns, throws, Ends-cong, Ends-and_then, Ends-imp, construct_value-Ends,
  construct-of-value,
}
use shm_next.Vector.Growth.{IsVector, Outside, Becomes, Apart-trans}
use shm_next.Vector.Reallocate.{same-Becomes, make_room-Ends, make_room-there}

module _ {A W : Type 0} (al : ElementAllocator A W) (live : W → ℕ → Bool)
    (is : IsElementAllocator al live) where
  pushed-Becomes :
      (v : Vector A W) (xs : List A) (x : A) (w : W)
      → IsVector live v xs
      → v.start + length xs < v.end_of_storage
      → 0 < v.start
      → ((q : ℕ) → live w q ≡ live v.world q)
      → Becomes live v
          (xs ++ (x ∷ []))
          (record (put v.finish (some x) w v) { finish = v.finish + 1 })
  pushed-Becomes v xs x w iv more pos same = (
    record {
      cells =
          Cells-append _ v.start v.finish xs (x ∷ [])
            (Cells-frame v.cell _ v.start xs iv.cells
              λ q i. update_ne v.cell v.finish q (some x) (ground (arith, i, iv.finish)))
            iv.finish (update_eq v.cell v.finish v.finish (some x) (ground arith), tt);
      finish = omega (arith, iv.finish, length-append xs (x ∷ []));
      room = omega (arith, more, length-append xs (x ∷ []));
      null = λ z. omega (arith, z, pos);
      owned = λ q i. same q ∙ iv.owned q i;
      small = iv.small;
    },
    λ q (l, o). (
      update_ne v.cell v.finish q (some x) (ground (arith, o, iv.finish, more)),
      (same q ∙ l, o),
    ),
  )

  push_at_end-Ends :
      (v : Vector A W) (xs : List A) (x : A)
      → IsVector live v xs
      → v.start + length xs < v.end_of_storage
      → 0 < v.start
      → Ends
          (and_then (construct_value al v.finish x v) λ _. move_finish al)
          (λ _. Becomes live v (xs ++ (x ∷ [])))
          (Becomes live v xs)
  push_at_end-Ends v xs x iv more pos =
      let w = (al.construct v.finish x v.world).1 in
      let same : (q : ℕ) → live w q ≡ live v.world q = λ q. is.constructed v.finish x v.world q in
      elim (construct_value-Ends al v.finish x v) [
        | returns _ u r e ↦
            returns tt (record (put v.finish (some x) w v) { finish = v.finish + 1 })
              (ap (λ r. and_then r λ _. move_finish al) (r ∙ ap (done tt) e))
              (pushed-Becomes v xs x w iv more pos same)
        | throws u r e ↦
            throws (record v { world = w })
              (ap (λ r. and_then r λ _. move_finish al) (r ∙ ap thrown e))
              (same-Becomes al live is v xs w iv same)
      ]

  push_slot-Ends :
      (v : Vector A W) (xs : List A) (x : A) (source : ℕ)
      → IsVector live v xs
      → v.start + length xs < v.end_of_storage
      → 0 < v.start
      → v.cell source ≡ some x
      → Ends
          (and_then (construct al v.finish source v) λ _. move_finish al)
          (λ _. Becomes live v (xs ++ (x ∷ [])))
          (Becomes live v xs)
  push_slot-Ends v xs x source iv more pos h =
      Ends-cong
        (ap (λ r. and_then r λ _. move_finish al) (construct-of-value al v.finish source x v h))
        (push_at_end-Ends v xs x iv more pos)

  -- Over an allocator that gives only slots that nobody owns, `push_back` on a well-formed vector of an
  -- object that stands in a slot of others appends it, or throws and keeps the elements. The vector stays
  -- well formed, and what stands in the slots of others stays.
  pub push_back-Ends :
      (v : Vector A W) (xs : List A) (x : A) (source : ℕ)
      → IsVector live v xs
      → Outside live v source
      → v.cell source ≡ some x
      → Ends (push_back al source v) (λ _. Becomes live v (xs ++ (x ∷ []))) (Becomes live v xs)
  unfolding push_back
  push_back-Ends v xs x source iv o h =
      Ends-and_then (λ _ u. and_then (construct al u.finish source u) λ _. move_finish al)
        (make_room-Ends al live is v xs iv)
        λ _ u (b, more, pos).
          Ends-imp (push_slot-Ends u xs x source b.0 more pos ((b.1 source o).0 ∙ h))
            (λ _ v' d. (d.0, Apart-trans live v u v' b.1 d.1))
            λ v' d. (d.0, Apart-trans live v u v' b.1 d.1)

  -- `emplace_back` of a reference to such an object does the same.
  pub emplace_back-Ends :
      (v : Vector A W) (xs : List A) (x : A) (source : ℕ)
      → IsVector live v xs
      → Outside live v source
      → v.cell source ≡ some x
      → Ends
          (emplace_back al (read source) v)
          (λ _. Becomes live v (xs ++ (x ∷ [])))
          (Becomes live v xs)
  unfolding emplace_back push_back
  emplace_back-Ends v xs x source iv o h = push_back-Ends v xs x source iv o h

  -- `push_back` of an object of the vector itself, where there is room for one more.
  pub push_back-own-Ends :
      (v : Vector A W) (xs : List A) (x : A) (source : ℕ)
      → IsVector live v xs
      → v.start + length xs < v.end_of_storage
      → v.cell source ≡ some x
      → Ends (push_back al source v) (λ _. Becomes live v (xs ++ (x ∷ []))) (Becomes live v xs)
  unfolding push_back
  push_back-own-Ends v xs x source iv more h =
      Ends-cong
        (ap (λ r. and_then r λ _ u. and_then (construct al u.finish source u) λ _. move_finish al)
          (make_room-there al v (ground (arith, more, iv.finish))))
        (push_slot-Ends v xs x source iv more (ground (arith, more, iv.null)) h)
