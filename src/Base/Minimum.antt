-- ===== src/Base/Minimum.antt =====
-- The search loop for the least key: `if (test && key < best) { best = key; where = i; }`, from a
-- bound that stands for no find.
use Prim.Native.Nat.{ℕ, ◌+◌, ◌≤◌, ◌<◌}
use mathlib.Core.Path.{◌≡◌, refl, sym, subst}
use mathlib.Core.Logic.{inl, inr}
use mathlib.Core.Bool.{Bool, true, false, ◌&&◌}
use mathlib.Core.Option.{Option, none, some}
use native.Mathlib.Omega.{arith}
use lettuce_os.Base.Tests.{ltb, ◌==◌, if◌then◌else◌, Bool-cases, ==→eq, ==→ne}

-- What holds of n, and of all below n, holds of all below n + 1.
pub below_next {ℓ} : (P : ℕ → Type ℓ) (n j : ℕ) → P n → (j < n → P j) → j < n + 1 → P j
below_next P n j here below h = elim (Bool-cases (j == n)) [
  | inl e ↦ subst P (sym (==→eq j n e)) here
  | inr ne ↦ below (omega (arith, ==→ne j n ne))
]

module _ (test : ℕ → Bool) (key : ℕ → ℕ) (bound : ℕ) where
  -- The find among the first n: an index that passes the test, with the least key of those that do;
  -- or none, when every key that passes is at least the bound.
  abbrev pub IsLeast : ℕ → Option ℕ → ℕ → Type 0
  IsLeast n none v = (v ≡ bound) × ((j : ℕ) → j < n → test j ≡ true → bound ≤ key j)
  IsLeast n (some i) v =
      (i < n)
      × (test i ≡ true)
      × (v ≡ key i)
      × (v < bound)
      × ((j : ℕ) → j < n → test j ≡ true → key i ≤ key j)

  pub IsLeast-skip :
      (n : ℕ) (o : Option ℕ) (v : ℕ)
      → (test n && ltb (key n) v) ≡ false
      → IsLeast n o v
      → IsLeast (n + 1) o v
  IsLeast-skip n none v late h =
      (h.0, λ j. below_next (λ i. test i ≡ true → bound ≤ key i) n j (λ e. ground arith) (h.1 j))
  IsLeast-skip n (some i) v late (lt, on, at, small, least) = (
    omega arith,
    on,
    at,
    small,
    λ j. below_next (λ k. test k ≡ true → key i ≤ key k) n j (λ e. ground arith) (least j),
  )

  IsLeast-take :
      (n : ℕ) (o : Option ℕ) (v : ℕ)
      → (test n && ltb (key n) v) ≡ true
      → IsLeast n o v
      → IsLeast (n + 1) (some n) (key n)
  IsLeast-take n none v new (e, none_below) = (
    omega arith,
    ground arith,
    refl,
    ground arith,
    λ j.
        below_next (λ k. test k ≡ true → key n ≤ key k) n j (λ _. omega arith)
          (λ lt on. ground (arith, none_below j lt on)),
  )
  IsLeast-take n (some i) v new (lt, on, at, small, least) = (
    omega arith,
    ground arith,
    refl,
    ground arith,
    λ j.
        below_next (λ k. test k ≡ true → key n ≤ key k) n j (λ _. omega arith)
          (λ lt' on'. ground (arith, least j lt' on')),
  )

  -- One round of the loop
  pub IsLeast-step :
      (n : ℕ) (o : Option ℕ) (v : ℕ)
      → IsLeast n o v
      → let new = test n && ltb (key n) v in
        IsLeast (n + 1) (if new then some n else o) (if new then key n else v)
  IsLeast-step n o v h = elim (Bool-cases (test n && ltb (key n) v)) [
    | inl new ↦ rw new (IsLeast-take n o v new h)
    | inr late ↦ rw late (IsLeast-skip n o v late h)
  ]
