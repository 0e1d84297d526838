-- ===== src/Sync.antt =====
-- interprocess/sync: the mutex and the shared mutex over what pthread and the clock offer.
--
-- The system is a parameter: a state `W` and the calls on it, each with the result code and the new
-- state. Times are in nanoseconds. A loop that polls until a deadline gets fuel.
pub mod Mutex
pub mod SharedMutex
pub mod Deadline
pub mod Timed
pub mod Held
use shm_next.Base.{
  ℕ, zero, suc, ◌-◌, ◌==◌, Bool, true, false, Option, none, some, ltb, leb, if◌then◌else◌,
}

pub record Clock (W : Type 0) : Type 0 where
  pub now : W → ℕ × W
  pub sleep_for : ℕ → W → W

-- What a call does: it returns, throws `std::system_error` with a code, or `MutexOwnerDeadError`.
pub data Outcome (A : Type 0) : Type 0 where
  returns : A → Outcome A
  system_error : ℕ → Outcome A
  owner_dead_error : Outcome A

abbrev pub Call : Type 0 → Type 0 → Type 0
Call W A = W → Outcome A × W

-- the call behind `if (res != 0) throw std::system_error(res, ...)`
abbrev pub checked : {W : Type 0} → (W → ℕ × W) → Call W (Unit {0})
checked call w =
    let (res, w') = call w in if res == 0 then (returns tt, w') else (system_error res, w')

-- `std::chrono::milliseconds(1)`
abbrev pub millisecond : ℕ
millisecond = 1000000

abbrev pub still : {A : Type 0} → (A → Bool) → Outcome A → Bool
still busy (returns x) = busy x
still busy (system_error e) = false
still busy owner_dead_error = false

-- Tries until the attempt is not busy or the deadline has passed, and sleeps in between.
unfoldable pub poll :
    {W A : Type 0}
    → ℕ
    → Clock W
    → (attempt : Call W A) → (busy : A → Bool) → (deadline : ℕ) → W
    → Option (Outcome A × W)
poll zero clock attempt busy deadline w = none
poll (suc fuel) clock attempt busy deadline w =
    let (tried, w₁) = attempt w in
    let (now, w₂) = clock.now w₁ in
    let remaining = deadline - now in
    let sleep_time = if ltb remaining millisecond then remaining else millisecond in
    let rest = poll fuel clock attempt busy deadline (clock.sleep_for sleep_time w₂) in
    if still busy tried
    then if leb deadline now then some (tried, w₂) else rest
    else some (tried, w₁)
