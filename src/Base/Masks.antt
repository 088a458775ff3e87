-- ===== src/Base/Masks.antt =====
-- Bit masks: what `x & m` keeps, digit by digit, and why a smaller mask is kept with a larger one.
use Prim.Native.Nat.{ℕ, zero, suc, ◌+◌, ◌*◌, ◌/◌, ◌%◌, ◌≤◌, min, bit_and, digits, bit_and-bitwise}
use mathlib.Core.Path.{◌≡◌, refl}
use native.Mathlib.Omega.{arith}

abbrev and_within : ℕ → ℕ → ℕ → ℕ
and_within = digits (λ b. zero) min

and_within-zero : (fuel b : ℕ) → and_within fuel 0 b ≡ 0
and_within-zero zero b = refl
and_within-zero (suc fuel) b = refl

-- Any two counts of digits that suffice give the same result.
and_within_unique : (k l x b : ℕ) → x ≤ k → x ≤ l → and_within k x b ≡ and_within l x b
and_within_unique k l zero b hk hl = omega (arith, and_within-zero k b, and_within-zero l b)
and_within_unique zero l (suc x) b hk hl = absurd (omega arith)
and_within_unique (suc k) zero (suc x) b hk hl = absurd (omega arith)
and_within_unique (suc k) (suc l) (suc x) b hk hl =
    omega (arith, and_within_unique k l (suc x / 2) (b / 2) (omega arith) (omega arith))

-- The lowest digit of a mask
pub bit_and-halves : (x b : ℕ) → bit_and x b ≡ bit_and (x / 2) (b / 2) * 2 + min (x % 2) (b % 2)
bit_and-halves zero b = omega (arith, bit_and-bitwise 0 b, bit_and-bitwise 0 (b / 2))
bit_and-halves (suc x) b = omega (
  arith,
  bit_and-bitwise (suc x) b,
  bit_and-bitwise (suc x / 2) (b / 2),
  and_within_unique x (suc x / 2) (suc x / 2) (b / 2) (omega arith) (omega arith),
)

bit_and-none_within : (k x : ℕ) → x ≤ k → bit_and x 0 ≡ 0
bit_and-none_within k zero h = bit_and-bitwise 0 0
bit_and-none_within zero (suc x) h = absurd (omega arith)
bit_and-none_within (suc k) (suc x) h =
    omega (arith, bit_and-halves (suc x) 0, bit_and-none_within k (suc x / 2) (omega arith))

pub bit_and-none : (x : ℕ) → bit_and x 0 ≡ 0
bit_and-none x = bit_and-none_within x x (omega arith)

-- A word that has bits 0 and 5 has bit 0.
pub bit_and-critical : (x : ℕ) → bit_and x 33 ≡ 33 → bit_and x 1 ≡ 1
bit_and-critical x h = omega (arith, bit_and-halves x 33, bit_and-halves x 1, bit_and-none (x / 2))
