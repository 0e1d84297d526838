-- ===== src/Vector/Reallocate.antt =====
-- shared_memory_vector.h: reallocation, and the room for one more element.
use shm_next.Base.{
  ℕ, ◌+◌, ◌-◌, ◌*◌, ◌%◌, ◌^◌, ◌≤◌, ◌<◌, ◌≡◌, refl, Bool, true, false, not, ◌&&◌, ◌||◌, none, some,
  List, inl, inr, arith, ltb, ◌==◌, if◌then◌else◌, length, Bool-cases, Option-cases, ◌∙◌, ap, word,
}
use shm_next.Vector.{
  ElementAllocator, Vector, done, thrown, pointers, size, capacity, move_storage,
  reallocate_elsewhere, reallocate, reserve, make_room,
}
use shm_next.Vector.Slots.{within, IsElementAllocator}
use shm_next.Vector.Ends.{Ends, returns, throws, Ends-cong, Ends-imp}
use shm_next.Vector.Growth.{
  IsVector, Becomes, Apart-trans, size-IsVector, capacity-IsVector, move_storage-Ends,
}

module _ {A W : Type 0} (al : ElementAllocator A W) where
  elsewhere-given :
      (n p : ℕ) (v : Vector A W)
      → (al.allocate n v.world).0 ≡ some p
      → reallocate_elsewhere al n v
        ≡ move_storage al p n (record v { world = (al.allocate n v.world).1 })
  unfolding reallocate_elsewhere
  elsewhere-given n p v h = rw (h, reallocate_elsewhere) refl

  elsewhere-refused :
      (n : ℕ) (v : Vector A W)
      → (al.allocate n v.world).0 ≡ none
      → reallocate_elsewhere al n v ≡ thrown (record v { world = (al.allocate n v.world).1 })
  unfolding reallocate_elsewhere
  elsewhere-refused n v h = rw (h, reallocate_elsewhere) refl

  reallocate-here :
      (n : ℕ) (v : Vector A W)
      → (not (v.start == 0) && ltb (capacity v) n) ≡ true
      → (al.try_expand v.start (capacity v) n v.world).0 ≡ true
      → reallocate al n v
        ≡ done tt (
            pointers v.start
              (v.start + size v)
              (v.start + n)
              (record v { world = (al.try_expand v.start (capacity v) n v.world).1 }))
  unfolding reallocate
  reallocate-here n v h h' = rw (h, h', reallocate) refl

  reallocate-moved :
      (n : ℕ) (v : Vector A W)
      → (not (v.start == 0) && ltb (capacity v) n) ≡ true
      → (al.try_expand v.start (capacity v) n v.world).0 ≡ false
      → reallocate al n v
        ≡ reallocate_elsewhere al n
            (record v { world = (al.try_expand v.start (capacity v) n v.world).1 })
  unfolding reallocate
  reallocate-moved n v h h' = rw (h, h', reallocate) refl

  reallocate-untried :
      (n : ℕ) (v : Vector A W)
      → (not (v.start == 0) && ltb (capacity v) n) ≡ false
      → reallocate al n v ≡ reallocate_elsewhere al n v
  unfolding reallocate
  reallocate-untried n v h = rw (h, reallocate) refl

module _ {A W : Type 0} (al : ElementAllocator A W) (live : W → ℕ → Bool)
    (is : IsElementAllocator al live) where
  -- The world changes, and no slot is given or taken.
  pub same-Becomes :
      (v : Vector A W) (xs : List A) (w : W)
      → IsVector live v xs
      → ((q : ℕ) → live w q ≡ live v.world q)
      → Becomes live v xs (record v { world = w })
  same-Becomes v xs w iv same = (
    record {
      cells = iv.cells;
      finish = iv.finish;
      room = iv.room;
      null = iv.null;
      owned = λ q i. same q ∙ iv.owned q i;
      small = iv.small;
    },
    λ q (l, o). (refl, (same q ∙ l, o)),
  )

  -- The elements are in storage for `n`.
  pub record Roomy (v : Vector A W) (xs : List A) (n : ℕ) (v' : Vector A W) : Type 0 where
    pub becomes : Becomes live v xs v'
    pub present : 0 < v'.start
    pub end : v'.end_of_storage ≡ v'.start + n

  elsewhere-Ends :
      (v : Vector A W) (xs : List A) (n : ℕ)
      → IsVector live v xs
      → length xs ≤ n
      → Ends (reallocate_elsewhere al n v) (λ _. Roomy v xs n) (Becomes live v xs)
  elsewhere-Ends v xs n iv le = elim (Option-cases (al.allocate n v.world).0) [
    | inl e ↦
        throws _ (elsewhere-refused al n v e)
          (same-Becomes v xs (al.allocate n v.world).1 iv (is.refused n v.world e))
    | inr (p, e) ↦
        let (pos, small, fresh, lives) = is.allocated n p v.world e in
        Ends-cong (elsewhere-given al n p v e) (
          Ends-imp
            (move_storage-Ends al live is v xs p n (al.allocate n v.world).1 iv pos le small fresh
              lives)
            (λ _ v' (b, s, t). record {
              becomes = b;
              present = omega (arith, s, pos);
              end = omega (arith, s, t);
            })
            λ v' b. b)
  ]

  here-Becomes :
      (v : Vector A W) (xs : List A) (n : ℕ) (w : W)
      → IsVector live v xs
      → ltb (v.end_of_storage - v.start) n ≡ true
      → 0 < v.start
      → v.start + n ≤ 2 ^ 63
      → ((q : ℕ)
          → within v.start n q ≡ true
          → within v.start (v.end_of_storage - v.start) q ≡ false
          → live v.world q ≡ false)
      → ((q : ℕ) → live w q ≡ (live v.world q || within v.start n q))
      → Becomes live v xs
          (pointers v.start (v.start + length xs) (v.start + n) (record v { world = w }))
  here-Becomes v xs n w iv more pos small fresh lives = (
    record {
      cells = iv.cells;
      finish = refl {a = v.start + length xs};
      room = ground (arith, more, iv.room);
      null = λ z. omega (arith, pos, z);
      owned = λ q i. let l = lives q in ground (arith, l, i);
      small = small;
    },
    λ q (l, o).
        let m = lives q in
        let fr = fresh q in (refl {a = v.cell q}, (ground (arith, m, l), ground (arith, fr, l, o))),
  )

  -- A reallocation to room for the elements keeps them, or throws and keeps them where they are.
  pub reallocate-Ends :
      (v : Vector A W) (xs : List A) (n : ℕ)
      → IsVector live v xs
      → length xs ≤ n
      → Ends (reallocate al n v) (λ _. Roomy v xs n) (Becomes live v xs)
  reallocate-Ends v xs n iv le =
      let c = capacity-IsVector live iv in
      let k = size-IsVector live iv in
      let w = (al.try_expand v.start (capacity v) n v.world).1 in
      elim (Bool-cases (not (v.start == 0) && ltb (capacity v) n)) [
        | inr e ↦ Ends-cong (reallocate-untried al n v e) (elsewhere-Ends v xs n iv le)
        | inl e ↦ elim (Bool-cases (al.try_expand v.start (capacity v) n v.world).0) [
          | inl e' ↦
              let (small, fresh, lives) = is.expanded v.start (capacity v) n v.world e' in
              let pos : 0 < v.start = ground (arith, e) in
              returns tt
                (pointers v.start (v.start + length xs) (v.start + n) (record v { world = w }))
                (reallocate-here al n v e e'
                  ∙ ap
                      (λ j.
                        done tt
                          (pointers v.start (v.start + j) (v.start + n) (record v { world = w })))
                      k)
                record {
                  becomes =
                      here-Becomes v xs n w iv (ground (arith, e, c)) pos small
                        (λ q i o. fresh q i (ground (arith, o, c))) lives;
                  present = pos;
                  end = refl;
                }
          | inr e' ↦
              let b = same-Becomes v xs w iv (is.not_expanded v.start (capacity v) n v.world e') in
              Ends-cong (reallocate-moved al n v e e') (
                Ends-imp (elsewhere-Ends (record v { world = w }) xs n b.0 le)
                  (λ _ v' r. record {
                    becomes = (
                      r.becomes.0,
                      Apart-trans live v (record v { world = w }) v' b.1 r.becomes.1,
                    );
                    present = r.present;
                    end = r.end;
                  })
                  λ v' d. (d.0, Apart-trans live v (record v { world = w }) v' b.1 d.1))
        ]
      ]

doubled-more : (c k : ℕ) → k ≡ c → c < 2 ^ 63 → k < (if c == 0 then 1 else (c * 2) % word)
doubled-more c k e small =
    let small' : c * 2 < word = omega (arith, small) in ground (arith, e, small')

module _ {A W : Type 0} (al : ElementAllocator A W) where
  make_room-full :
      (v : Vector A W) (n : ℕ)
      → (v.finish == v.end_of_storage) ≡ true
      → (if capacity v == 0 then 1 else (capacity v * 2) % word) ≡ n
      → make_room al v ≡ reallocate al n v
  unfolding make_room
  make_room-full v n h e = rw (h, make_room) (ap (λ k. reallocate al k v) e)

  pub make_room-there :
      (v : Vector A W) → (v.finish == v.end_of_storage) ≡ false → make_room al v ≡ done tt v
  unfolding make_room
  make_room-there v h = rw (h, make_room) refl

  reserve-more :
      (n : ℕ) (v : Vector A W) → ltb (capacity v) n ≡ true → reserve al n v ≡ reallocate al n v
  unfolding reserve
  reserve-more n v h = rw (h, reserve) refl

  reserve-enough :
      (n : ℕ) (v : Vector A W) → ltb (capacity v) n ≡ false → reserve al n v ≡ done tt v
  unfolding reserve
  reserve-enough n v h = rw (h, reserve) refl

module _ {A W : Type 0} (al : ElementAllocator A W) (live : W → ℕ → Bool)
    (is : IsElementAllocator al live) where
  pub Becomes-refl : (v : Vector A W) (xs : List A) → IsVector live v xs → Becomes live v xs v
  Becomes-refl v xs iv = (iv, λ q o. (refl, o))

  -- `reserve` keeps the elements and leaves room for as many as asked, or throws and keeps the elements.
  pub reserve-Ends :
      (v : Vector A W) (xs : List A) (n : ℕ)
      → IsVector live v xs
      → Ends (reserve al n v) (λ _ v'. Becomes live v xs v' × (n ≤ capacity v')) (Becomes live v xs)
  reserve-Ends v xs n iv =
      let c = capacity-IsVector live iv in
      elim (Bool-cases (ltb (capacity v) n)) [
        | inr e ↦ returns tt v (reserve-enough al n v e) (Becomes-refl v xs iv, ground (arith, e))
        | inl e ↦ Ends-cong (reserve-more al n v e) (
            Ends-imp (reallocate-Ends al live is v xs n iv (ground (arith, e, c, iv.room)))
              (λ _ v' r. (
                r.becomes,
                let c' = capacity-IsVector live r.becomes.0 in omega (arith, c', r.end),
              ))
              λ v' b. b)
      ]

  -- `make_room` keeps the elements and leaves room for one more, or throws and keeps the elements.
  pub make_room-Ends :
      (v : Vector A W) (xs : List A)
      → IsVector live v xs
      → Ends
          (make_room al v)
          (λ _ v'.
            Becomes live v xs v' × (v'.start + length xs < v'.end_of_storage) × (0 < v'.start))
          (Becomes live v xs)
  make_room-Ends v xs iv =
      let c = capacity-IsVector live iv in
      let n = if capacity v == 0 then 1 else (capacity v * 2) % word in
      elim (Bool-cases (v.finish == v.end_of_storage)) [
        | inr e ↦ returns tt v (make_room-there al v e) (
          Becomes-refl v xs iv,
          ground (arith, e, iv.finish, iv.room),
          ground (arith, e, iv.finish, iv.room, iv.null),
        )
        | inl e ↦
            let more : length xs < n =
              doubled-more (capacity v) (length xs) (ground (arith, e, c, iv.finish, iv.room))
                (ground (arith, c, iv.small, iv.null)) in
            Ends-cong (make_room-full al v n e refl) (
              Ends-imp (reallocate-Ends al live is v xs n iv (omega (arith, more)))
                (λ _ v' r. (r.becomes, omega (arith, r.end, more), r.present)) λ v' b. b)
      ]
