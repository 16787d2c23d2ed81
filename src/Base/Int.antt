-- ===== src/Base/Int.antt =====
-- Signed integers over the native numbers, and C's `int` on them: each operation wraps at 32 bits
-- (the kernel is built with -fno-strict-overflow), and division rounds towards zero.
use Prim.Native.Nat.{ℕ, suc, ◌+◌, ◌-◌, ◌*◌, ◌/◌, ◌%◌, ◌^◌, ◌≤◌, ◌<◌}
use mathlib.Core.Path.{◌≡◌}
use mathlib.Core.Bool.{Bool}
use native.Mathlib.Omega.{arith}
use nvme_plus.Base.Tests.{ltb, leb, if◌then◌else◌}

-- `negsuc n` is -(n + 1).
pub data ℤ : Type 0 where
  pos : ℕ → ℤ
  negsuc : ℕ → ℤ

abbrev pub pos_part : ℤ → ℕ
pos_part (pos n) = n
pos_part (negsuc n) = 0

abbrev pub neg_part : ℤ → ℕ
neg_part (pos n) = 0
neg_part (negsuc n) = suc n

-- a - b, as an integer.
abbrev pub sub_ℕ : ℕ → ℕ → ℤ
sub_ℕ a b = if leb b a then pos (a - b) else negsuc (b - a - 1)

-- The integer that the low 32 bits of `w` stand for.
unfoldable pub signed32 : ℕ → ℤ
signed32 w =
    if ltb (w % 2 ^ 32) (2 ^ 31) then pos (w % 2 ^ 32) else negsuc (2 ^ 32 - w % 2 ^ 32 - 1)

-- The 32 bits of an integer.
abbrev pub bits32 : ℤ → ℕ
bits32 (pos n) = n % 2 ^ 32
bits32 (negsuc n) = 2 ^ 32 - 1 - n % 2 ^ 32

-- What an `int` keeps of a result.
unfoldable pub s32 : ℤ → ℤ
unfolding signed32
s32 x = signed32 (bits32 x)

infixl 65 ◌+ℤ◌ ◌-ℤ◌
infixl 70 ◌*ℤ◌ ◌/ℤ◌
infix 50 ◌≤ℤ◌ ◌<ℤ◌
unfoldable pub ◌+ℤ◌ : ℤ → ℤ → ℤ
a +ℤ b = s32 (sub_ℕ (pos_part a + pos_part b) (neg_part a + neg_part b))

unfoldable pub ◌-ℤ◌ : ℤ → ℤ → ℤ
unfolding s32
a -ℤ b = s32 (sub_ℕ (pos_part a + neg_part b) (neg_part a + pos_part b))

unfoldable pub ◌*ℤ◌ : ℤ → ℤ → ℤ
unfolding s32
a *ℤ b = s32 (
    sub_ℕ (pos_part a * pos_part b + neg_part a * neg_part b)
      (pos_part a * neg_part b + neg_part a * pos_part b))

-- C rules out a zero divisor; here it gives 0.
unfoldable pub ◌/ℤ◌ : ℤ → ℤ → ℤ
unfolding s32
pos a /ℤ pos b = s32 (pos (a / b))
pos a /ℤ negsuc b = s32 (sub_ℕ 0 (a / suc b))
negsuc a /ℤ pos b = s32 (sub_ℕ 0 (suc a / b))
negsuc a /ℤ negsuc b = s32 (pos (suc a / suc b))

-- The remainder has the sign of the dividend.
unfoldable pub rem : ℤ → ℕ → ℤ
rem (pos a) n = pos (a % n)
rem (negsuc a) n = sub_ℕ 0 (suc a % n)

-- The remainder by an `int`; its sign does not depend on the divisor's.
unfoldable pub rem_int : ℤ → ℤ → ℤ
unfolding rem
rem_int a b = rem a (pos_part b + neg_part b)

abbrev pub ◌≤ℤ◌ : ℤ → ℤ → Type 0
a ≤ℤ b = pos_part a + neg_part b ≤ pos_part b + neg_part a

abbrev pub ◌<ℤ◌ : ℤ → ℤ → Type 0
a <ℤ b = pos_part a + neg_part b < pos_part b + neg_part a

abbrev pub ltb_ℤ : ℤ → ℤ → Bool
ltb_ℤ a b = ltb (pos_part a + neg_part b) (pos_part b + neg_part a)

abbrev pub leb_ℤ : ℤ → ℤ → Bool
leb_ℤ a b = leb (pos_part a + neg_part b) (pos_part b + neg_part a)

-- `a != 0`
abbrev pub nonzero : ℤ → Bool
nonzero (pos n) = ltb 0 n
nonzero (negsuc n) = ltb 0 (suc n)

abbrev pub IsInt : ℤ → Type 0
IsInt x = (pos_part x < 2 ^ 31) × (neg_part x ≤ 2 ^ 31)

pub s32_of_IsInt : (x : ℤ) → IsInt x → s32 x ≡ x
unfolding s32
s32_of_IsInt x h = ground arith

pub s32-IsInt : (x : ℤ) → IsInt (s32 x)
unfolding s32
s32-IsInt x = ground arith

pub add-IsInt : (a b : ℤ) → IsInt (a +ℤ b)
unfolding ◌+ℤ◌
add-IsInt a b = s32-IsInt (sub_ℕ (pos_part a + pos_part b) (neg_part a + neg_part b))

pub signed32_small : (n : ℕ) → n < 2 ^ 31 → signed32 n ≡ pos n
unfolding signed32
signed32_small n h = ground arith

pub add_pos : (a b : ℕ) → a + b < 2 ^ 31 → pos a +ℤ pos b ≡ pos (a + b)
unfolding ◌+ℤ◌ s32
add_pos a b h = ground arith

pub sub_pos : (a b : ℕ) → b ≤ a → a < 2 ^ 31 → pos a -ℤ pos b ≡ pos (a - b)
unfolding ◌-ℤ◌
sub_pos a b h k = ground arith

pub mul_pos : (a b : ℕ) → a * b < 2 ^ 31 → pos a *ℤ pos b ≡ pos (a * b)
unfolding ◌*ℤ◌
mul_pos a b h = ground arith

pub div_pos : (a b : ℕ) → a / b < 2 ^ 31 → pos a /ℤ pos b ≡ pos (a / b)
unfolding ◌/ℤ◌
div_pos a b h = ground arith

pub rem_pos : (a n : ℕ) → rem_int (pos a) (pos n) ≡ pos (a % n)
unfolding rem_int rem
rem_pos a n = ground arith
