-- ===== src/Arch/System/Calls.antt =====
-- kernel/arch/arm64/cpu.c: protected calls and the returns from them change no authority and keep the
-- machine sound.
use lettuce_os.Base.{ℕ, ◌≤◌, ◌≡◌, inl, inr, sym, subst, Option, none, some, arith}
use lettuce_os.Sched.Mechanism.{TrapFrame}
use lettuce_os.Ipc.State.{Resolution}
use lettuce_os.Arch.Mmu.{Mmu, enter, leave}
use lettuce_os.Arch.Mmu.Domains.{Follows, enter-Follows}
use lettuce_os.Arch.Cpu.{Cpu, ContextFrame, Pac, push, pop, context_max}
use lettuce_os.Arch.Machine.{Machine, Outcome, resumes, resumes_kernel, halts, mmu_of}
use lettuce_os.Arch.Svc.{CallKind, svc_call, svc_return, return_to, transition, caller_frame}
use lettuce_os.Arch.Svc.Laws.{saved, svc_call-Starts}
use lettuce_os.Arch.Svc.Nested.{transition-kept}
use lettuce_os.Arch.System.Leads.{Leads, Leads-refl, identity-Leads}

push-depth :
    (pac : Pac) (c : Cpu) (f : ContextFrame)
    → c.depth ≤ context_max
    → (push pac c f).1.depth ≤ context_max
unfolding push
push-depth pac c f h = ground (arith, h)

pop-depth : (pac : Pac) (c : Cpu) → c.depth ≤ context_max → (pop pac c).1.depth ≤ context_max
unfolding pop
pop-depth pac c h = ground (arith, h)

leave-domains : (u : Mmu) (domain : ℕ) → (leave u domain).domains ≡ u.domains
unfolding leave enter
leave-domains u domain = ground arith

leave-Follows : (u : Mmu) (domain : ℕ) → Follows u → Follows (leave u domain)
unfolding leave
leave-Follows u domain v = enter-Follows u domain v

transition-Leads :
    (pac : Pac) (kind : CallKind) (m : Machine) (f : TrapFrame) (r : Resolution) (pc : ℕ)
    → Leads m (transition (saved pac kind m f) f kind r pc).0
transition-Leads pac kind m f r pc =
    let (_, same, follows) = transition-kept (saved pac kind m f) f kind r pc in moved same follows
  where
    moved :
        (mmu_of (transition (saved pac kind m f) f kind r pc).0).domains ≡ (mmu_of m).domains
        → (Follows (mmu_of m) → Follows (mmu_of (transition (saved pac kind m f) f kind r pc).0))
        → Leads m (transition (saved pac kind m f) f kind r pc).0
    moved same follows =
        unfold transition in
        identity-Leads m (push pac m.cpu (caller_frame m f)).1 r.target.id _ same follows
          (push-depth pac m.cpu (caller_frame m f))

pub svc_call-Leads :
    (pac : Pac) (kind : CallKind) (m : Machine) (f : TrapFrame) → Leads m (svc_call pac kind m f).0
svc_call-Leads pac kind m f = elim (svc_call-Starts pac kind m f) [
  | inl (s, _, e) ↦ subst (λ o. Leads m o.0) (sym e) (Leads-refl m)
  | inr (r, pc, _, _, _, _, e) ↦
      subst (λ o. Leads m o.0) (sym e) (transition-Leads pac kind m f r pc)
]

-- What an exception ends in
abbrev pub EndsWell : Machine → Outcome → Type 0
EndsWell m (resumes n f) = Leads m n
EndsWell m (resumes_kernel n x) = Leads m n
EndsWell m halts = Unit

return_to-Leads :
    (pac : Pac) (m : Machine) (c : Option ContextFrame) (f : TrapFrame)
    → EndsWell m (return_to pac m (pop pac m.cpu).1 c f)
unfolding return_to
return_to-Leads pac m none f = Leads-refl m
return_to-Leads pac m (some caller) f =
    identity-Leads m (pop pac m.cpu).1 caller.service_id _
      (leave-domains (mmu_of m) caller.domain_id) (leave-Follows (mmu_of m) caller.domain_id)
      (pop-depth pac m.cpu)

pub svc_return-Leads : (pac : Pac) (m : Machine) (f : TrapFrame) → EndsWell m (svc_return pac m f)
unfolding svc_return
svc_return-Leads pac m f = return_to-Leads pac m (pop pac m.cpu).0 f
