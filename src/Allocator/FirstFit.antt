-- ===== src/Allocator/FirstFit.antt =====
-- The search of `allocate`: the first listed block that is large enough, which is the smallest one.
use shm_next.Base.{
  ℕ, zero, suc, ◌<◌, ◌≡◌, refl, Bool, true, false, List, [], ◌∷◌, Option, none, some, ◌⊎◌, arith,
  leb, ◌==◌, if◌then◌else◌, has, length, Bool-cases, inl, inr, eq→==,
}
use shm_next.Errors.{bad_alloc}
use shm_next.Allocator.{Allocator, ok, throw}
use shm_next.Allocator.Count
use shm_next.Allocator.Layout.{make_layout}
use shm_next.Allocator.Calls.{allocate_from_block, allocate_loop}
use shm_next.Allocator.FreeList.{before, unlink, remove_loop}
use shm_next.Allocator.FreeList.Links.{Links}
use shm_next.Allocator.FreeList.Order.{Sorted}

-- Block `q` has room for the layout of the request.
abbrev pub fits : Allocator → (size n q : ℕ) → Bool
fits a size n q = leb (make_layout q size n).total_size (a.size q)

pub first_fit : Allocator → (size n : ℕ) → List ℕ → Option ℕ
first_fit a size n [] = none
first_fit a size n (x ∷ xs) = if fits a size n x then some x else first_fit a size n xs

module _ (a : Allocator) (size n : ℕ) where
  -- What `first_fit` finds on a sorted list is listed and fits, and stands before all others that fit.
  pub first_fit-some :
      (xs : List ℕ) (t : ℕ)
      → Sorted a.size xs
      → first_fit a size n xs ≡ some t
      → (has t xs ≡ true)
        × (fits a size n t ≡ true)
        × ((q : ℕ)
            → has q xs ≡ true
            → fits a size n q ≡ true
            → (q ≡ t) ⊎ (before a.size t q ≡ true))
  unfolding first_fit
  first_fit-some [] t s e = cc
  first_fit-some (x ∷ xs) t (ahead, s) e = elim (Bool-cases (fits a size n x)) [
    | inl good ↦
        let e' : x ≡ t = ground arith in
        (ground arith, ground arith, λ q i f. ground (arith, ahead q))
    | inr bad ↦
        let (i, f, least) = first_fit-some xs t s (ground arith) in
        (ground arith, f, λ q j g. least q (ground arith) g)
  ]

  first_fit-fits : (xs : List ℕ) (t : ℕ) → first_fit a size n xs ≡ some t → fits a size n t ≡ true
  unfolding first_fit
  first_fit-fits [] t e = cc
  first_fit-fits (x ∷ xs) t e = ground (arith, first_fit-fits xs t)

  pub first_fit-none :
      (xs : List ℕ) (q : ℕ)
      → first_fit a size n xs ≡ none
      → has q xs ≡ true
      → fits a size n q ≡ false
  unfolding first_fit
  first_fit-none [] q e i = cc
  first_fit-none (x ∷ xs) q e i = ground (arith, first_fit-none xs q)

  -- The loop fails where nothing fits; else it hands the first fit on, with the block before it as
  -- `remove_free_block` would find it.
  pub allocate_loop-first_fit :
      (fuel prev curr : ℕ) (xs : List ℕ)
      → Links a.next_free curr xs
      → length xs < fuel
      → ((q : ℕ) → has q xs ≡ true → a.is_free q ≡ true)
      → ((first_fit a size n xs ≡ none)
          × (allocate_loop fuel size n prev curr a ≡ throw bad_alloc (Count.failed a)))
        ⊎ ((t : ℕ) × (p : ℕ) × (first_fit a size n xs ≡ some t)
            × (allocate_loop fuel size n prev curr a
                ≡ allocate_from_block p t (make_layout t size n) size a)
            × (remove_loop fuel prev curr t a ≡ ok tt (unlink p t a)))
  unfolding first_fit allocate_loop remove_loop
  allocate_loop-first_fit zero prev curr xs l f free = absurd (omega arith)
  allocate_loop-first_fit (suc fuel) prev curr [] l f free = inl (refl, rw (eq→== curr 0 l))
  allocate_loop-first_fit (suc fuel) prev curr (x ∷ xs) l f free =
      rw l.0 (elim (Bool-cases (fits a size n x)) [
        | inl good ↦ inr (x, prev, rw good, rw (nonzero, open', good), rw (nonzero, eq→== x x refl))
        | inr bad ↦
            elim (allocate_loop-first_fit fuel x (a.next_free x) xs l.2 (omega arith)
              (λ q i. free q (ground arith))) [
                | inl (e, run) ↦ inl (rw bad e, rw (nonzero, open', bad) run)
                | inr (t, p, e, run, rem) ↦
                    let good = first_fit-fits xs t e in
                    let miss : (x == t) ≡ false = ground arith in
                    inr (t, p, rw bad e, rw (nonzero, open', bad) run, rw (nonzero, miss) rem)
              ]
      ])
    where
      nonzero : (x == 0) ≡ false
      nonzero = ground arith

      open' : a.is_free x ≡ true
      open' = free x (ground arith)
