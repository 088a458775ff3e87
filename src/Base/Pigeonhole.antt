-- ===== src/Base/Pigeonhole.antt =====
-- An array of distinct numbers below m has at most m entries.
use Prim.Native.Nat.{ℕ, zero, suc, ◌≤◌, ◌<◌}
use mathlib.Core.Path.{◌≡◌}
use native.Mathlib.Omega.{arith}
use lettuce_os.Base.Tests.{◌==◌, if◌then◌else◌}

-- The first n entries, with the value m replaced by the entry behind them
squeeze : (ℕ → ℕ) → ℕ → ℕ → ℕ → ℕ
squeeze f n m k = if f k == m then f n else f k

pub pigeonhole :
    (n m : ℕ) (f : ℕ → ℕ)
    → ((k : ℕ) → k < n → f k < m)
    → ((j k : ℕ) → j < n → k < n → f j ≡ f k → j ≡ k)
    → n ≤ m
unfolding squeeze
pigeonhole zero m f below inj = omega arith
pigeonhole (suc n) zero f below inj = absurd (omega (arith, below 0 (omega arith)))
pigeonhole (suc n) (suc m) f below inj = omega (
  arith,
  pigeonhole n m (squeeze f n m)
      (λ k h. ground (arith, below k (omega arith), below n (omega arith), inj k n))
      (λ j k hj hk e. ground (arith, inj j k, inj j n, inj k n)),
)
