-- ===== src/Base/Words.antt =====
-- 64-bit unsigned words: `std::size_t`, `uintptr_t` and `uint64_t`.
use Prim.Native.Nat.{ℕ, ◌+◌, ◌-◌, ◌%◌, ◌^◌}

abbrev pub word : ℕ
word = 2 ^ 64

infixl 65 ◌+w◌ ◌-w◌
abbrev pub ◌+w◌ : ℕ → ℕ → ℕ
a +w b = (a + b) % word

-- `-` on ℕ stops at 0, so the modulus is added first.
abbrev pub ◌-w◌ : ℕ → ℕ → ℕ
a -w b = (a + word - b) % word
