-- ===== src/Sync/Deadline.antt =====
-- interprocess/sync: the loops that poll end, and no attempt is given up before the deadline.
use shm_next.Base.{
  ℕ, zero, suc, ◌+◌, ◌-◌, ◌*◌, ◌≤◌, ◌≡◌, refl, Bool, true, Option, some, ltb, leb, if◌then◌else◌,
  arith, leb→le, Bool-cases, inl, inr, ◌⊎◌,
}
use shm_next.Sync.{Clock, Outcome, Call, poll, still, millisecond}

-- A time that never runs back: the clock reads it, and `sleep_for` lets at least its argument pass.
pub record IsClock {W : Type 0} (clock : Clock W) (time : W → ℕ) : Type 0 where
  pub reads : (w : W) → time w ≤ (clock.now w).0
  pub passes : (w : W) → (clock.now w).0 ≤ time (clock.now w).1
  pub sleeps : (d : ℕ) (w : W) → time w + d ≤ time (clock.sleep_for d w)

-- The loop has a result, and a busy one only when the deadline has passed.
pub record Ends {W A : Type 0} (busy : A → Bool) (deadline : ℕ) (time : W → ℕ)
    (o : Option (Outcome A × W)) : Type 0 where
  pub outcome : Outcome A
  pub after : W
  pub result : o ≡ some (outcome, after)
  pub late : still busy outcome ≡ true → deadline ≤ time after

module _ {W A : Type 0} (clock : Clock W) (time : W → ℕ) (is : IsClock clock time)
    (attempt : Call W A) (busy : A → Bool) (forward : (w : W) → time w ≤ time (attempt w).1) where
  -- the nap between two attempts
  abbrev nap : ℕ → ℕ → ℕ
  nap deadline now = if ltb (deadline - now) millisecond then deadline - now else millisecond

  nap_enough :
      (deadline now n : ℕ)
      → deadline ≤ now + suc n * millisecond
      → deadline ≤ now + nap deadline now + n * millisecond
  nap_enough deadline now n known = ground arith

  abbrev later : ℕ → W → W
  later deadline w =
      let (now, w₂) = clock.now (attempt w).1 in clock.sleep_for (nap deadline now) w₂

  step :
      (n deadline : ℕ) (w : W)
      → Ends busy deadline time (poll n clock attempt busy deadline (later deadline w))
        ⊎ (deadline ≤ (clock.now (attempt w).1).0)
      → Ends busy deadline time (poll (suc n) clock attempt busy deadline w)
  unfolding poll
  step n deadline w next = elim (Bool-cases (still busy (attempt w).0)) [
    | inr free ↦ record {
      outcome = (attempt w).0;
      after = (attempt w).1;
      result = rw free refl;
      late = λ b. ground (arith, free);
    }
    | inl b ↦ elim (Bool-cases (leb deadline (clock.now (attempt w).1).0)) [
      | inl passed ↦ record {
        outcome = (attempt w).0;
        after = (clock.now (attempt w).1).1;
        result = rw (b, passed) refl;
        late = λ _. omega (arith, leb→le deadline _ passed, is.passes (attempt w).1);
      }
      | inr early ↦ elim next [
        | inl e ↦ record {
          outcome = e.outcome;
          after = e.after;
          result = rw (b, early) e.result;
          late = e.late;
        }
        | inr passed ↦ absurd (ground arith)
      ]
    ]
  ]

  -- Where the clock never runs back and `sleep_for` lets its time pass, one attempt more than the
  -- milliseconds to the deadline are enough for a result; it is a busy one only after the deadline.
  pub poll-Ends :
      (n deadline : ℕ) (w : W)
      → deadline ≤ time w + n * millisecond
      → Ends busy deadline time (poll (suc n) clock attempt busy deadline w)
  poll-Ends zero deadline w enough =
      step zero deadline w (inr (omega (arith, forward w, is.reads (attempt w).1)))
  poll-Ends (suc n) deadline w enough =
      let now : ℕ = (clock.now (attempt w).1).0 in
      let known : deadline ≤ now + suc n * millisecond =
        omega (arith, forward w, is.reads (attempt w).1) in
      elim (Bool-cases (leb deadline now)) [
        | inl passed ↦ step (suc n) deadline w (inr (leb→le deadline now passed))
        | inr early ↦
            let slept = is.sleeps (nap deadline now) (clock.now (attempt w).1).1 in
            let more = nap_enough deadline now n known in
            step (suc n) deadline w (
              inl (
                poll-Ends n deadline (later deadline w)
                  (omega (arith, slept, more, is.passes (attempt w).1))))
      ]
