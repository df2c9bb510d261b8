-- ===== src/Base/Int.antt =====
-- C's signed integers over the native numbers. A cast goes through the bit pattern.
use Prim.Native.Nat.{ℕ, suc, ◌+◌, ◌-◌, ◌%◌, ◌^◌, ◌<◌}
use mathlib.Core.Path.{◌≡◌}
use mathlib.Core.Bool.{Bool, false}
use native.Mathlib.Omega.{arith}
use sysmon.Base.Tests.{ltb, ◌==◌, if◌then◌else◌}
use sysmon.Base.Words.{u32_mod, u64_mod}

-- `negsuc n` is -(n + 1).
pub data ℤ : Type 0 where
  pos : ℕ → ℤ
  negsuc : ℕ → ℤ

-- The `int` and the `long` that a bit pattern stands for.
abbrev pub signed32 : ℕ → ℤ
signed32 w = if ltb w (2 ^ 31) then pos w else negsuc (2 ^ 32 - 1 - w)

abbrev pub signed64 : ℕ → ℤ
signed64 w = if ltb w (2 ^ 63) then pos w else negsuc (2 ^ 64 - 1 - w)

-- The bit pattern of an integer that a `long` holds, as `(unsigned long)v`.
abbrev pub pattern64 : ℤ → ℕ
pattern64 (pos n) = n % u64_mod
pattern64 (negsuc n) = u64_mod - 1 - n % u64_mod

abbrev pub pattern32 : ℤ → ℕ
pattern32 (pos n) = n % u32_mod
pattern32 (negsuc n) = u32_mod - 1 - n % u32_mod

-- `(int)v` for a `long v`
abbrev pub to_int : ℤ → ℤ
to_int v = signed32 (pattern32 v)

-- `v == k` for a constant k that is not negative
abbrev pub is_pos : ℤ → ℕ → Bool
is_pos (pos n) k = n == k
is_pos (negsuc n) k = false

abbrev pub pos_part : ℤ → ℕ
pos_part (pos n) = n
pos_part (negsuc n) = 0

abbrev pub neg_part : ℤ → ℕ
neg_part (pos n) = 0
neg_part (negsuc n) = suc n

-- `a < b`
abbrev pub is_before : ℤ → ℤ → Bool
is_before a b = ltb (pos_part a + neg_part b) (pos_part b + neg_part a)

-- `a - b > k`, where the difference does not overflow
abbrev pub exceeds : ℤ → ℤ → ℕ → Bool
exceeds a b k = ltb (pos_part b + neg_part a + k) (pos_part a + neg_part b)

-- What a `long` holds.
abbrev pub IsLong : ℤ → Type 0
IsLong (pos n) = n < 2 ^ 63
IsLong (negsuc n) = n < 2 ^ 63

pub signed64-pattern64 : (v : ℤ) → IsLong v → signed64 (pattern64 v) ≡ v
signed64-pattern64 (pos n) h = ground arith
signed64-pattern64 (negsuc n) h = ground arith

pub pattern64_lt : (v : ℤ) → pattern64 v < u64_mod
pattern64_lt (pos n) = omega arith
pattern64_lt (negsuc n) = omega arith

pub to_int-small : (n : ℕ) → n < 2 ^ 31 → to_int (pos n) ≡ pos n
to_int-small n h = ground arith
