-- ===== src/Arch/System/Reach.antt =====
-- kernel/arch/arm64/cpu.c: what a service can do without the kernel's own code.
use lettuce_os.Base.{◌≡◌, inl, inr, subst, some, List, [], ◌∷◌, arith, Option-cases}
use mathlib.Core.Option.{some-injective}
use lettuce_os.Arch.Cpu.{Pac}
use lettuce_os.Arch.Machine.{Machine}
use lettuce_os.Arch.System.{Exception, handle, run}
use lettuce_os.Arch.System.Leads.{IsSound, Leads, Leads-refl, Leads-trans}
use lettuce_os.Arch.System.Sound.{handle-Leads}

run-Leads : (pac : Pac) (xs : List Exception) (m n : Machine) → run pac m xs ≡ some n → Leads m n
unfolding run
run-Leads pac [] m n e = subst (Leads m) (some-injective _ _ e) (Leads-refl m)
run-Leads pac (x ∷ xs) m n e = elim (Option-cases (handle pac m x)) [
  | inl stops ↦ absurd (ground (arith, stops, e))
  | inr (p, goes) ↦
      Leads-trans (handle-Leads pac m p x goes) (run-Leads pac xs p n (ground (arith, goes, e)))
]

-- No history of exceptions and interrupts breaks the state: if the root register holds the root of the
-- current domain, at most 8 callers are saved, and no task but the current one runs, then so after it,
-- unless one of the handlers halts.
pub run-IsSound :
    (pac : Pac) (m n : Machine) (xs : List Exception)
    → IsSound m
    → run pac m xs ≡ some n
    → IsSound n
run-IsSound pac m n xs v e = (run-Leads pac xs m n e).sound v
