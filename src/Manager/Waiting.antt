-- ===== src/Manager/Waiting.antt =====
-- shared_memory_manager.h: `with_read_only_snapshot` waits for a writer to finish.
use mathlib.Core.Path.{subst}
use shm_next.Base.{
  ℕ, zero, suc, ◌+◌, ◌%◌, ◌≤◌, ◌<◌, ◌≡◌, refl, true, false, none, some, ◌==◌, eq→==, arith,
  if◌then◌else◌, ◌∙◌, sym, ap, inl,
}
use shm_next.Errors.{metadata_changed_during_read}
use shm_next.Manager.{
  Metadata, Reading, max_attempts, wait_for_stable_metadata_generation, read, snapshot_loop,
  with_read_only_snapshot,
}
use shm_next.Manager.Snapshots.{answer, read-answer, read_later}

module _ {A : Type 0} (m : ℕ → Metadata A) where
  waits_now :
      (fuel t : ℕ)
      → ((m t).generation % 2 == 0) ≡ true
      → wait_for_stable_metadata_generation (suc fuel) m t ≡ (some (m t).generation, suc t)
  unfolding wait_for_stable_metadata_generation
  waits_now fuel t even = rw (even, wait_for_stable_metadata_generation) refl

  waits_longer :
      (fuel t : ℕ)
      → ((m t).generation % 2 == 0) ≡ false
      → wait_for_stable_metadata_generation (suc fuel) m t
        ≡ wait_for_stable_metadata_generation fuel m (suc t)
  unfolding wait_for_stable_metadata_generation
  waits_longer fuel t odd = rw (odd, wait_for_stable_metadata_generation) refl

  waits_out :
      (d fuel t n : ℕ)
      → t + d ≡ n
      → d < fuel
      → ((u : ℕ) → u < n → ((m u).generation % 2 == 0) ≡ false)
      → ((m n).generation % 2 == 0) ≡ true
      → wait_for_stable_metadata_generation fuel m t ≡ (some (m n).generation, suc n)
  waits_out d zero t n e lt odd even = absurd (omega (arith, lt))
  waits_out zero (suc fuel) t n e lt odd even =
      let same : t ≡ n = omega (arith, e) in
      subst
        (λ k. wait_for_stable_metadata_generation (suc fuel) m t ≡ (some (m k).generation, suc k))
        same (waits_now fuel t (subst (λ k. ((m k).generation % 2 == 0) ≡ true) (sym same) even))
  waits_out (suc d) (suc fuel) t n e lt odd even =
      waits_longer fuel t (odd t (omega (arith, e)))
      ∙ waits_out d fuel (suc t) n (omega (arith, e)) (omega (arith, lt)) odd even

module _ {A B : Type 0} (p : Reading A B) (m : ℕ → Metadata A) where
  first_attempt :
      (attempts t s g : ℕ)
      → wait_for_stable_metadata_generation max_attempts m t ≡ (some g, s)
      → (m (read p m s).1).generation ≡ g
      → snapshot_loop (suc attempts) p m t ≡ (read p m s).0
  unfolding snapshot_loop
  first_attempt attempts t s g h e =
      let e' : ((m (read p m s).1).generation == g) ≡ true =
        eq→== (m (read p m s).1).generation g e in
      ap
        (λ w. elim w.0 [
          | none ↦ inl metadata_changed_during_read
          | some generation ↦
              if (m (read p m w.1).1).generation == generation
              then (read p m w.1).0
              else snapshot_loop attempts p m (suc (read p m w.1).1)
        ])
        h
      ∙ ap (λ b. if b then (read p m s).0 else snapshot_loop attempts p m (suc (read p m s).1)) e'

  -- Where a writer is active at the first n loads, fewer than 1024, and is then done, and nothing is written
  -- afterwards, `with_read_only_snapshot` returns what its function gives for the metadata that is there.
  pub with_read_only_snapshot-waits :
      (n : ℕ)
      → n < max_attempts
      → ((u : ℕ) → u < n → ((m u).generation % 2 == 0) ≡ false)
      → ((m n).generation % 2 == 0) ≡ true
      → ((u : ℕ) → n ≤ u → m u ≡ m n)
      → with_read_only_snapshot p m ≡ answer p (m n).content
  with_read_only_snapshot-waits n lt odd even still =
      let later = read_later p m (suc n) in
      first_attempt 1023 0 (suc n) (m n).generation
        (waits_out m n max_attempts 0 n (omega arith) lt odd even)
        (ap (λ c. c.generation) (still (read p m (suc n)).1 (omega (arith, later))))
      ∙ read-answer p m (suc n) (m n).content
          λ u le _. ap (λ c. c.content) (still u (omega (arith, le)))
