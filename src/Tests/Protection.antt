-- ===== src/Tests/Protection.antt =====
-- kernel/main/protection.c in its two builds, in domain A.
use lettuce_os.Base.{◌≡◌, ◌≢◌, refl, inl, none}
use lettuce_os.Arch.Mmu.{init_roots, lookup, enter}
use lettuce_os.Arch.Mmu.Domains.{IsValid, init_roots_lem}
use lettuce_os.Kernel.Context
use lettuce_os.Kernel.Context.{Context}
use lettuce_os.Kernel.Protection.{
  State, context_enter, context_leave, protection_enter, protection_current_domain,
}
use lettuce_os.Kernel.Protection.Agrees.{Same, context_enter-context_leave}
use lettuce_os.Tests.Sched.{blank_mmu}

abbrev state : State
state = record { service_id = 1; mmu = init_roots blank_mmu }

abbrev context : Context
context = record { service_id = 1; domain_id = 100 }

same : Same state context
unfolding init_roots protection_current_domain
same = (refl, refl)

known_b : lookup 200 ≢ none
unfolding lookup
known_b e = absurd (cc e)

context_enter-context_leave_example :
    let (saved, inside) = context_enter state 2 200 in
    let (saved', inside') = Context.context_enter context 2 200 in
    (saved ≡ saved')
    × Same inside inside'
    × IsValid inside.mmu
    × (context_leave inside saved ≡ state)
    × (Context.context_leave inside' saved' ≡ context)
context_enter-context_leave_example =
    context_enter-context_leave state context 2 200 (init_roots_lem blank_mmu).0 same (inl known_b)

-- In a domain that is none of the three, the builds differ: the ARM64 build stays where it is.
differs :
    ((protection_enter state.mmu 2).1.current_domain ≡ 100)
    × ((Context.protection_enter context 2).1.domain_id ≡ 2)
unfolding protection_enter enter lookup init_roots Context.protection_enter
differs = (refl, refl)
