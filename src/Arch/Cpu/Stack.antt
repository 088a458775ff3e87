-- ===== src/Arch/Cpu/Stack.antt =====
-- kernel/arch/arm64/cpu.c: the saved callers are a stack.
use lettuce_os.Base.{ℕ, ◌^◌, ◌<◌, ◌≡◌, true, some, arith}
use lettuce_os.Arch.Cpu.{Cpu, ContextFrame, Pac, push, pop, context_max}

-- Two states have the same saved callers, and authenticate alike.
pub record SameCallers (c d : Cpu) : Type 0 where
  pub depth_eq : d.depth ≡ c.depth
  pub below : (i : ℕ) → i < c.depth → d.stack i ≡ c.stack i
  pub pac_eq : d.pac_enabled ≡ c.pac_enabled

-- Authenticating a signed pointer gives the pointer back, as the instructions promise for an
-- address of the 39 bits that TCR.T0SZ = 25 leaves.
abbrev pub IsLawful : Pac → Type 0
IsLawful pac =
    (pointer modifier : ℕ)
    → pointer < 2 ^ 39
    → pac.auth (pac.sign pointer modifier) modifier ≡ pointer

module _ (pac : Pac) (law : IsLawful pac) where
  -- A caller that is pushed lies on top of the others, and popping gives it back.
  pub pop-push :
      (c : Cpu) (f : ContextFrame) (d : Cpu)
      → f.elr < 2 ^ 39
      → (push pac c f).0 ≡ true
      → SameCallers (push pac c f).1 d
      → ((pop pac d).0 ≡ some f) × SameCallers c (pop pac d).1 × (c.depth < context_max)
  unfolding push pop
  pop-push c f d small pushed same = (
    ground (arith, same, same.below c.depth, law f.elr f.service_id small),
    record {
      depth_eq = ground (arith, same.depth_eq);
      below = λ i h. ground (arith, same.below i);
      pac_eq = ground (arith, same.pac_eq);
    },
    ground arith,
  )
