-- ===== src/Manager/Locking.antt =====
-- shared_memory_manager.h: a call under the write lock and the metadata generation.
use shm_next.Base.{
  Bool, ℕ, ◌+◌, ◌%◌, ◌≡◌, refl, true, false, [], ◌∷◌, ◌==◌, if◌then◌else◌, arith, word, ◌+w◌, ◌⊎◌,
  ap, ◌∙◌,
}
use shm_next.Errors.{InterprocessErrc}
use shm_next.Sync.{Outcome, returns}
use shm_next.Sync.Mutex.{Pthread, MutexLockStatus, acquired, owner_dead, mark_consistent}
use shm_next.Manager.{
  Result, ended, refused, to_result, Locking, Metadata, begin_metadata_write, end_metadata_write,
}
use shm_next.Manager.Events.{begins, ends, changes, happen, happen_all}

module _ {A : Type 0} where
  begin-even :
      (m : Metadata A)
      → (m.generation % 2 == 0) ≡ true
      → begin_metadata_write m ≡ record m { generation = m.generation +w 1 }
  unfolding begin_metadata_write
  begin-even m e = rw (e, begin_metadata_write) refl

  end-odd :
      (m : Metadata A)
      → (m.generation % 2 == 0) ≡ false
      → end_metadata_write m ≡ record m { generation = m.generation +w 1 }
  unfolding end_metadata_write
  end-odd m e = rw (e, end_metadata_write) refl

module _ {A B : Type 0} (func : A → (InterprocessErrc ⊎ B) × A) (m : Metadata A) where
  -- What the function gives and leaves, where the generation went up by `k`.
  abbrev after_call : (k : ℕ) → (InterprocessErrc ⊎ B) × Metadata A
  after_call k = (
    (func m.content).0,
    record { generation = (m.generation + k) % word; content = (func m.content).1 },
  )

  abbrev begun : A → Metadata A
  begun c = record { generation = m.generation +w 1; content = c }

  section_end :
      (m.generation % 2 == 0) ≡ true
      → end_metadata_write (begun (func m.content).1) ≡ (after_call 2).1
  section_end e =
      let two : (m.generation +w 1) +w 1 ≡ (m.generation + 2) % word = omega arith in
      end-odd (begun (func m.content).1) (ground (arith, e))
      ∙ ap (λ g. record { generation = g; content = (func m.content).1 }) two

  happen-even :
      (m.generation % 2 == 0) ≡ true
      → happen_all (begins ∷ changes (func m.content).1 ∷ ends ∷ []) m ≡ (after_call 2).1
  happen-even e =
      let odd : ((m.generation +w 1) % 2 == 0) ≡ false = ground (arith, e) in
      ap (λ b. end_metadata_write (happen (changes (func m.content).1) b)) (begin-even m e)
      ∙ ap (λ z. end_metadata_write (if z then begun m.content else begun (func m.content).1)) odd
      ∙ section_end e

-- an error of the mutex
abbrev pub is_mutex_error : {B : Type 0} → Result B → Bool
is_mutex_error (ended (returns _)) = false
is_mutex_error (ended _) = true
is_mutex_error (refused _) = false

abbrev pub is_returned : {B : Type 0} → Result B → Bool
is_returned (ended (returns _)) = true
is_returned _ = false

module _ {A B W : Type 0} (pthread : Pthread W) (sane : A → Bool)
    (func : A → (InterprocessErrc ⊎ B) × A) where
  -- the metadata that the function leaves, with the generation `k` higher
  abbrev pub Wrote : Metadata A → (k : ℕ) → Locking pthread sane B → Type 0
  Wrote m k r =
      (r.1 ≡ record { generation = (m.generation + k) % word; content = (func m.content).1 })
      × ((((m.generation + k) % word) % 2 == 0) ≡ true)
      × ((r.0 ≡ to_result (func m.content).0) ⊎ (is_mutex_error r.0 ≡ true))

  -- How far the generation goes up, where the lock ended with `s`.
  abbrev pub Rises : Metadata A → Outcome MutexLockStatus → (k : ℕ) → Type 0
  Rises m s k =
      ((s ≡ returns acquired)
        × ((((m.generation % 2 == 0) ≡ true) × (k ≡ 2))
            ⊎ (((m.generation % 2 == 0) ≡ false) × (k ≡ 1))))
      ⊎ ((s ≡ returns owner_dead)
          × (sane m.content ≡ true)
          × ((((m.generation % 2 == 0) ≡ true) × (k ≡ 2))
              ⊎ (((m.generation % 2 == 0) ≡ false) × (k ≡ 3))))

  -- A call under the lock runs its function and leaves what it leaves; or the lock was not had, the
  -- metadata is untouched, and the call throws.
  abbrev pub Locked : Metadata A → Outcome MutexLockStatus × W → Locking pthread sane B → Type 0
  Locked m s r =
      ((k : ℕ) × Rises m s.0 k × Wrote m k r)
      ⊎ ((r.1 ≡ m)
          × (is_returned r.0 ≡ false)
          × (s.0 ≡ returns acquired → ⊥)
          × (s.0 ≡ returns owner_dead
              → sane m.content ≡ true
              → (mark_consistent pthread s.1).0 ≡ returns tt
              → ⊥))
