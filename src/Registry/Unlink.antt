-- ===== src/Registry/Unlink.antt =====
-- named_object_registry.h: `unlink` takes one header out of its chain.
use shm_next.Base.{
  ℕ, zero, suc, ◌+◌, ◌<◌, ◌≡◌, ◌≢◌, refl, true, false, some, List, [], ◌∷◌, arith, ◌==◌,
  if◌then◌else◌, length, has, erase, Distinct, word, Links, Links-frame, Links-has_null, Bool-cases,
  inl, inr, eq→==, ==→eq, ◌∙◌, sym, erase-Distinct, has-of-erase, length-erase,
}
use shm_next.Registry.{Registry, bucket_count, bucket_index, visits, unhook, unlink_loop, unlink}
use shm_next.Registry.Chains.{IsRegistry, count-update, rechained, home_lt, enough}

-- where the chain of `index` goes on behind `prev`
abbrev onward : (index prev : ℕ) → Registry → ℕ
onward index prev r = if prev == 0 then r.buckets index else r.next prev

record Unhooked (r : Registry) (index prev target : ℕ) (xs : List ℕ) (r' : Registry) : Type 0 where
  links : Links r'.next (onward index prev r') (erase target xs)
  other : (q : ℕ) → q ≢ prev → has q xs ≡ false → r'.next q ≡ r.next q
  head : prev ≢ 0 → r'.buckets index ≡ r.buckets index
  buckets : (i : ℕ) → i ≢ index → r'.buckets i ≡ r.buckets i
  hashes : (q : ℕ) → r'.name_hash q ≡ r.name_hash q
  total : r.total_count ≢ 0 → r.total_count < word → r'.total_count + 1 ≡ r.total_count

module _ (r : Registry) (index : ℕ) where
  unhook-Unhooked :
      (prev target : ℕ) (xs : List ℕ)
      → Links r.next target (target ∷ xs)
      → Distinct (target ∷ xs)
      → has prev (target ∷ xs) ≡ false
      → Unhooked r index prev target (target ∷ xs) (unhook index prev target r)
  unfolding unhook
  unhook-Unhooked prev target xs (_, pos, l) d np =
      let e : onward index prev (unhook index prev target r) ≡ r.next target = ground arith in
      let hit : (target == target) ≡ true = eq→== target target refl in
      record {
        links = rw (hit, e) (Links-frame r.next _ _ xs l λ q i. ground (arith, d.0));
        other = λ q a b. ground arith;
        head = λ p. ground arith;
        buckets = λ i ne. ground arith;
        hashes = λ q. refl;
        total = λ p b. ground arith;
      }

  Unhooked-step :
      (prev x target : ℕ) (xs : List ℕ) (r' : Registry)
      → 0 < x
      → (target == x) ≡ false
      → onward index prev r ≡ x
      → has prev (x ∷ xs) ≡ false
      → Unhooked r index x target xs r'
      → Unhooked r index prev target (x ∷ xs) r'
  Unhooked-step prev x target xs r' px nt at np u = record {
    links = rw nt (ground (arith, u.other prev, u.head), px, ground (arith, u.links));
    other = λ q a b. u.other q (ground arith) (ground arith);
    head = λ p. u.head (ground arith);
    buckets = u.buckets;
    hashes = u.hashes;
    total = u.total;
  }

  unlink_loop-Unhooked :
      (fuel prev curr target : ℕ) (xs : List ℕ)
      → Links r.next curr xs
      → onward index prev r ≡ curr
      → Distinct xs
      → length xs < fuel
      → has prev xs ≡ false
      → has target xs ≡ true
      → (r' : Registry) × (unlink_loop fuel index target prev curr r ≡ some r')
        × Unhooked r index prev target xs r'
  unfolding unlink_loop
  unlink_loop-Unhooked zero prev curr target xs l at d f np nt = absurd (omega arith)
  unlink_loop-Unhooked (suc fuel) prev curr target [] l at d f np nt = cc
  unlink_loop-Unhooked (suc fuel) prev curr target (x ∷ xs) (c, pos, l) at d f np nt =
      let nonzero : (x == 0) ≡ false = ground arith in
      rw c (elim (Bool-cases (x == target)) [
        | inl hit ↦ rw (← ==→eq x target hit) (
          unhook index prev x r,
          rw (nonzero, eq→== x x refl),
          unhook-Unhooked prev x xs (refl, pos, l) d np,
        )
        | inr miss ↦
            let (r', run, u) =
              unlink_loop-Unhooked fuel x (r.next x) target xs l (ground arith) d.1 (omega arith)
                d.0 (ground arith) in
            (
              r',
              rw (nonzero, miss) run,
              Unhooked-step prev x target xs r' pos (ground arith) (at ∙ c) np u,
            )
      ])

module _ (r : Registry) (chains : ℕ → List ℕ) (is : IsRegistry r chains) where
  abbrev home : ℕ → ℕ
  home target = bucket_index (r.name_hash target)

  not_null : (j q : ℕ) → j < bucket_count → has q (chains j) ≡ true → q ≢ 0
  not_null j q lt k = ground (arith, Links-has_null r.next (r.buckets j) (chains j) (is.links j lt))

  -- A header stands in one chain only.
  apart :
      (j h q : ℕ)
      → j < bucket_count
      → h < bucket_count
      → j ≢ h
      → has q (chains j) ≡ true
      → has q (chains h) ≡ false
  apart j h q lt lt' ne k = elim (Bool-cases (has q (chains h))) [
    | inl k' ↦ absurd (ne (sym (is.homes j q lt k) ∙ is.homes h q lt' k'))
    | inr out ↦ out
  ]

  -- `unlink` of a header that stands in the chain of its hash ends, and takes exactly that header out.
  pub unlink-IsRegistry :
      (target : ℕ)
      → has target (chains (home target)) ≡ true
      → (r' : Registry) × (unlink target r ≡ some r')
        × IsRegistry r' (rechained r chains is target (erase target (chains (home target))))
  unfolding unlink
  unlink-IsRegistry target i =
      let lt = home_lt r chains is target in
      let h : ℕ = home target in
      let null = Links-has_null r.next (r.buckets h) (chains h) (is.links h lt) in
      let z : (target == 0) ≡ false = ground arith in
      let (r', run, u) =
        unlink_loop-Unhooked r h (visits r) 0 (r.buckets h) target (chains h) (is.links h lt) refl
          (is.distinct h lt) (enough r chains is h lt) null i in
      let shorter = length-erase target (chains h) i in
      let fewer = count-update bucket_count h chains (erase target (chains h)) lt in
      let down = u.total (omega (arith, fewer, shorter, is.total)) is.bounded in
      (
        r',
        rw z run,
        record {
          links = λ j lt'. elim (Bool-cases (j == h)) [
            | inl e ↦ rw (e, ==→eq j h e) u.links
            | inr e ↦
                rw (e, u.buckets j (ground arith))
                  (Links-frame r.next _ _ _ (is.links j lt')
                    λ q k. u.other q (not_null j q lt' k) (apart j h q lt' lt (ground arith) k))
          ];
          distinct = λ j lt'. elim (Bool-cases (j == h)) [
            | inl e ↦ rw e (erase-Distinct target (chains h) (is.distinct h lt))
            | inr e ↦ rw e (is.distinct j lt')
          ];
          homes = λ j p lt'. elim (Bool-cases (j == h)) [
            | inl e ↦
                rw (e, u.hashes p)
                  λ k. is.homes h p lt (has-of-erase target p (chains h) k) ∙ sym (==→eq j h e)
            | inr e ↦ rw (e, u.hashes p) (is.homes j p lt')
          ];
          total = omega (arith, down, fewer, shorter, is.total);
          bounded = omega (arith, down, is.bounded);
        },
      )
