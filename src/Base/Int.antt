-- ===== src/Base/Int.antt =====
-- Signed integers over the native numbers, for 64-bit offsets.
use Prim.Native.Nat.{ℕ, ◌-◌}
use shm_next.Base.Tests.{if◌then◌else◌, ◌==◌}

-- `negsuc n` is -(n + 1).
pub data ℤ : Type 0 where
  pos : ℕ → ℤ
  negsuc : ℕ → ℤ

-- - n
abbrev pub neg : ℕ → ℤ
neg n = if n == 0 then pos 0 else negsuc (n - 1)
