-- ===== src/Base/Words.antt =====
-- `unsigned int`: a number below 2 ^ 32. Each operation that can leave that range wraps.
use Prim.Native.Nat.{ℕ, ◌+◌, ◌-◌, ◌*◌, ◌%◌, ◌^◌, ◌<◌, ◌≤◌}
use mathlib.Core.Path.{◌≡◌}
use native.Mathlib.Omega.{arith}

abbrev pub u32 : ℕ → ℕ
u32 x = x % 2 ^ 32

infixl 65 ◌+u◌ ◌-u◌
infixl 70 ◌*u◌
abbrev pub ◌+u◌ : ℕ → ℕ → ℕ
a +u b = u32 (a + b)

abbrev pub ◌-u◌ : ℕ → ℕ → ℕ
a -u b = u32 (a + 2 ^ 32 - b)

abbrev pub ◌*u◌ : ℕ → ℕ → ℕ
a *u b = u32 (a * b)

pub u32-eq_of_lt : (x : ℕ) → x < 2 ^ 32 → u32 x ≡ x
u32-eq_of_lt x h = omega arith

pub sub-eq_of_le : (a b : ℕ) → b ≤ a → a < 2 ^ 32 → a -u b ≡ a - b
sub-eq_of_le a b h k = omega arith
