-- ===== src/Base/Arrays.antt =====
-- Static C arrays as functions on their index. The code guards every index by the array's size, and
-- the guards are part of the definitions that use a table.
use Prim.Native.Nat.{ℕ, zero, suc, ◌+◌, ◌≤◌}
use mathlib.Core.Path.{◌≡◌, sym, subst}
use mathlib.Core.Logic.{inl, inr}
use native.Mathlib.Omega.{arith}
use lettuce_os.Base.Tests.{ltb, ◌==◌, if◌then◌else◌, Bool-cases, ==→eq, ==→ne}

abbrev pub Table {ℓ} : Type ℓ → Type ℓ
Table A = ℕ → A

module _ {ℓ} {A : Type ℓ} where
  -- `t[i] = v;`
  abbrev pub update : Table A → ℕ → A → Table A
  update t i v j = if j == i then v else t j

  -- `for (i = 0; i < n; ++i) t[i] = f(i, t[i]);`
  unfoldable pub fill : ℕ → (ℕ → A → A) → Table A → Table A
  fill zero f t = t
  fill (suc n) f t = let t' = fill n f t in update t' n (f n (t' n))

  pub fill_lem :
      (n : ℕ) (f : ℕ → A → A) (t : Table A) (j : ℕ)
      → fill n f t j ≡ (if ltb j n then f j (t j) else t j)
  unfolding fill
  fill_lem zero f t j = ground arith
  fill_lem (suc n) f t j = ground (arith, fill_lem n f t j, fill_lem n f t n)

-- What holds of i, and of every later index, holds from i on.
pub from_next {ℓ} : (P : ℕ → Type ℓ) (i j : ℕ) → P i → (i + 1 ≤ j → P j) → i ≤ j → P j
from_next P i j here later h = elim (Bool-cases (j == i)) [
  | inl e ↦ subst P (sym (==→eq j i e)) here
  | inr ne ↦ later (omega (arith, ==→ne j i ne))
]
