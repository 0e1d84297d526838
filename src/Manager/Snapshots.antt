-- ===== src/Manager/Snapshots.antt =====
-- shared_memory_manager.h: what `with_read_only_snapshot` returns while writers run.
use shm_next.Base.{
  ℕ, zero, suc, ◌%◌, ◌≤◌, ◌<◌, ◌≡◌, refl, true, none, some, List, ◌==◌, ==→eq, arith, word, ◌⊎◌,
  inl, inr, ◌∙◌, ap, Bool-cases,
}
use shm_next.Errors.{InterprocessErrc, metadata_changed_during_read}
use shm_next.Manager.{
  Metadata, Reading, give, fail, look, max_attempts, wait_for_stable_metadata_generation, read,
  snapshot_loop, with_read_only_snapshot,
}
use shm_next.Manager.Events.{Event, Follows, events_before, quiet}

module _ {A : Type 0} where
  -- What the wait for a stable generation gives: none, or an even one that was there.
  wait-stable :
      (fuel : ℕ) (m : ℕ → Metadata A) (t : ℕ)
      → ((wait_for_stable_metadata_generation fuel m t).0 ≡ none)
        ⊎ ((q : ℕ) × (q ≤ (wait_for_stable_metadata_generation fuel m t).1)
            × ((wait_for_stable_metadata_generation fuel m t).0 ≡ some (m q).generation)
            × (((m q).generation % 2 == 0) ≡ true))
  unfolding wait_for_stable_metadata_generation
  wait-stable zero m t = inl refl
  wait-stable (suc fuel) m t = elim (Bool-cases ((m t).generation % 2 == 0)) [
    | inl e ↦ inr (
      t,
      rw (e, wait_for_stable_metadata_generation) (omega arith),
      rw (e, wait_for_stable_metadata_generation) refl,
      e,
    )
    | inr e ↦ elim (wait-stable fuel m (suc t)) [
      | inl h ↦ inl (rw (e, wait_for_stable_metadata_generation) h)
      | inr (q, le, h, even) ↦ inr (
        q,
        rw (e, wait_for_stable_metadata_generation) le,
        rw (e, wait_for_stable_metadata_generation) h,
        even,
      )
    ]
  ]

module _ {A B : Type 0} where
  -- what a function that reads gives where the metadata is `c` all the time
  abbrev pub answer : Reading A B → A → InterprocessErrc ⊎ B
  answer (give b) c = inr b
  answer (fail e) c = inl e
  answer (look k) c = answer (k c) c

  pub read_later : (p : Reading A B) (m : ℕ → Metadata A) (t : ℕ) → t ≤ (read p m t).1
  unfolding read
  read_later (give b) m t = omega arith
  read_later (fail e) m t = omega arith
  read_later (look k) m t = let r = read_later (k (m t).content) m (suc t) in omega (arith, r)

  pub read-answer :
      (p : Reading A B) (m : ℕ → Metadata A) (t : ℕ) (c : A)
      → ((u : ℕ) → t ≤ u → u ≤ (read p m t).1 → (m u).content ≡ c)
      → (read p m t).0 ≡ answer p c
  unfolding read
  read-answer (give b) m t c same = refl
  read-answer (fail e) m t c same = refl
  read-answer (look k) m t c same =
      let here : (m t).content ≡ c =
        same t (omega arith) (omega (arith, read_later (k (m t).content) m (suc t))) in
      read-answer (k (m t).content) m (suc t) c (λ u le le'. same u (omega (arith, le)) le')
      ∙ ap (λ d. answer (k d) c) here

  -- The result is the error that the metadata changed, or what the function gives for the metadata as it
  -- was at one moment when no writer was active.
  abbrev pub Consistent : Reading A B → (m : ℕ → Metadata A) → InterprocessErrc ⊎ B → Type 0
  Consistent p m result =
      (result ≡ inl metadata_changed_during_read)
      ⊎ ((q : ℕ) × (((m q).generation % 2 == 0) ≡ true) × (result ≡ answer p (m q).content))

  module _ (es : ℕ → List (Event A)) (m : ℕ → Metadata A) (f : Follows es m)
      (few : (t : ℕ) → events_before es t < word) (p : Reading A B) where
    attempt-answer :
        (q t : ℕ)
        → q ≤ t
        → ((m q).generation % 2 == 0) ≡ true
        → ((m (read p m t).1).generation == (m q).generation) ≡ true
        → (read p m t).0 ≡ answer p (m q).content
    attempt-answer q t le even same = read-answer p m t (m q).content λ u a b.
        quiet es m f q u (read p m t).1 (omega (arith, le, a)) b (few (read p m t).1) even
          (==→eq (m (read p m t).1).generation (m q).generation same)

    snapshot_loop-Consistent : (attempts t : ℕ) → Consistent p m (snapshot_loop attempts p m t)
    unfolding snapshot_loop
    snapshot_loop-Consistent zero t = inl refl
    snapshot_loop-Consistent (suc attempts) t =
        let start = (wait_for_stable_metadata_generation max_attempts m t).1 in
        elim (wait-stable max_attempts m t) [
          | inl h ↦ inl (rw (h, snapshot_loop) refl)
          | inr (q, le, h, even) ↦
              elim (Bool-cases ((m (read p m start).1).generation == (m q).generation)) [
                | inl e ↦ inr (q, even, rw (h, e, snapshot_loop) (attempt-answer q start le even e))
                | inr e ↦
                    rw (h, e, snapshot_loop)
                      (snapshot_loop-Consistent attempts (suc (read p m start).1))
              ]
        ]

    -- While writers run, `with_read_only_snapshot` returns what its function gives for the metadata as it
    -- was at one moment when no writer was active, or the error that the metadata changed. The writers do
    -- fewer than 2 ^ 64 things.
    pub with_read_only_snapshot-Consistent : Consistent p m (with_read_only_snapshot p m)
    with_read_only_snapshot-Consistent = snapshot_loop-Consistent max_attempts 0
