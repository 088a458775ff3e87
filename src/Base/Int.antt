-- ===== src/Base/Int.antt =====
-- Signed numbers, and how C converts them to words and back.
use Prim.Native.Nat.{ℕ, zero, suc, ◌-◌, ◌%◌, ◌^◌, ◌<◌}
use mathlib.Core.Path.{◌≡◌}
use mathlib.Core.Bool.{Bool, true, false}
use native.Mathlib.Omega.{arith}
use lettuce_os.Base.Tests.{ltb, if◌then◌else◌}

-- `negsuc n` is -(n + 1).
pub data ℤ : Type 0 where
  pos negsuc : ℕ → ℤ

abbrev pub neg : ℕ → ℤ
neg zero = pos 0
neg (suc n) = negsuc n

abbrev pub is_negative : ℤ → Bool
is_negative (pos n) = false
is_negative (negsuc n) = true

-- `(uint64_t)z`, also of an `int`
unfoldable pub to_u64 : ℤ → ℕ
to_u64 (pos n) = n % 2 ^ 64
to_u64 (negsuc n) = 2 ^ 64 - 1 - n % 2 ^ 64

-- `(int64_t)w` and `(int)w`
unfoldable pub to_i64 : ℕ → ℤ
to_i64 w = let w' = w % 2 ^ 64 in if ltb w' (2 ^ 63) then pos w' else negsuc (2 ^ 64 - 1 - w')

unfoldable pub to_i32 : ℕ → ℤ
to_i32 w = let w' = w % 2 ^ 32 in if ltb w' (2 ^ 31) then pos w' else negsuc (2 ^ 32 - 1 - w')

-- A number of 64 or 32 bits
abbrev pub IsI64 : ℤ → Type 0
IsI64 (pos n) = n < 2 ^ 63
IsI64 (negsuc n) = n < 2 ^ 63

abbrev pub IsI32 : ℤ → Type 0
IsI32 (pos n) = n < 2 ^ 31
IsI32 (negsuc n) = n < 2 ^ 31

pub to_i64-to_u64 : (z : ℤ) → IsI64 z → to_i64 (to_u64 z) ≡ z
unfolding to_i64 to_u64
to_i64-to_u64 (pos n) h = ground arith
to_i64-to_u64 (negsuc n) h = ground arith

pub to_i32-to_u64 : (z : ℤ) → IsI32 z → to_i32 (to_u64 z) ≡ z
unfolding to_i32 to_u64
to_i32-to_u64 (pos n) h = ground arith
to_i32-to_u64 (negsuc n) h = ground arith
