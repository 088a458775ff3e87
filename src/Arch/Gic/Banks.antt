-- ===== src/Arch/Gic/Banks.antt =====
-- kernel/arch/arm64/gic.c: which registers the writes for an interrupt reach.
use lettuce_os.Base.{
  ℕ, zero, suc, ◌+◌, ◌-◌, ◌%◌, ◌^◌, ◌≤◌, ◌<◌, ◌≡◌, ap, ltb, inl, inr, Bool-cases, arith,
}
use native.Mathlib.Numerals.{unary_clauses}
use lettuce_os.Arch.Gic.{gicd_base, enable_interrupt, disable_interrupt}

two_pow-lt : (a k : ℕ) → 2 ^ a < 2 ^ (a + suc k)
two_pow-lt a zero =
    let next : a + 1 ≡ suc a = omega arith in
    let pos = two_pow_pos a in rw next (simp unary_clauses (omega (arith, pos)))
  where
    two_pow_pos : (n : ℕ) → 0 < 2 ^ n
    two_pow_pos zero = omega arith
    two_pow_pos (suc n) = simp unary_clauses (omega (arith, two_pow_pos n))
two_pow-lt a (suc k) =
    let next : a + suc (suc k) ≡ suc (a + suc k) = omega arith in
    let less = two_pow-lt a k in
    let rest = simp unary_clauses at less in rw next (simp unary_clauses (omega (arith, rest)))

two_pow_injective : (a b : ℕ) → 2 ^ a ≡ 2 ^ b → a ≡ b
two_pow_injective a b e = elim (Bool-cases (ltb a b)) [
  | inl less ↦
      let gap : a + suc (b - a - 1) ≡ b = ground arith in
      absurd (
        let grows = two_pow-lt a (b - a - 1) in
        let grown = ap (λ n. 2 ^ n) gap in omega (arith, e, grows, grown))
  | inr more ↦ elim (Bool-cases (ltb b a)) [
    | inl less ↦
        let gap : b + suc (a - b - 1) ≡ a = ground arith in
        absurd (
          let grows = two_pow-lt b (a - b - 1) in
          let grown = ap (λ n. 2 ^ n) gap in omega (arith, e, grows, grown))
    | inr same ↦ ground arith
  ]
]

-- For the interrupts that the controller can have, whose numbers are below 1024, the
-- write that enables one reaches a word of the enabling bank, that which disables one a word of the
-- disabling bank, and no other interrupt is enabled or disabled by the same write.
pub interrupt_banks :
    (i j : ℕ)
    → i < 1024
    → j < 1024
    → (gicd_base + 0x100 ≤ (enable_interrupt i).address)
      × ((enable_interrupt i).address + 4 ≤ gicd_base + 0x180)
      × (gicd_base + 0x180 ≤ (disable_interrupt i).address)
      × ((disable_interrupt i).address + 4 ≤ gicd_base + 0x200)
      × ((enable_interrupt i).address % 4 ≡ 0)
      × (enable_interrupt i ≡ enable_interrupt j → i ≡ j)
      × (disable_interrupt i ≡ disable_interrupt j → i ≡ j)
unfolding enable_interrupt disable_interrupt
interrupt_banks i j hi hj = (
  omega (arith, hi),
  omega (arith, hi),
  omega (arith, hi),
  omega (arith, hi),
  omega (arith, hi),
  λ e.
      let word = ap (λ w. w.address) e in
      let bit = two_pow_injective (i % 32) (j % 32) (ap (λ w. w.value) e) in
      omega (arith, word, bit, hi, hj),
  λ e.
      let word = ap (λ w. w.address) e in
      let bit = two_pow_injective (i % 32) (j % 32) (ap (λ w. w.value) e) in
      omega (arith, word, bit, hi, hj),
)
