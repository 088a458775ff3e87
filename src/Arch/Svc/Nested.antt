-- ===== src/Arch/Svc/Nested.antt =====
-- kernel/arch/arm64/cpu.c: calls inside calls, and how each returns to its caller.
use lettuce_os.Base.{
  ℕ, ◌^◌, ◌<◌, ◌≡◌, ◌≢◌, refl, sym, subst, ap, ◌∙◌, ◌&&◌, none, some, arith, Bool-cases, inl, inr,
}
use lettuce_os.Sched.Mechanism.{TrapFrame}
use lettuce_os.Ipc.State.{Resolution}
use lettuce_os.Arch.Mmu.{Mmu, enter, leave, lookup, set_current_domain, domain_ttbr0_val}
use lettuce_os.Arch.Mmu.Domains.{Follows, enter-Follows, leave_lem}
use lettuce_os.Arch.Cpu.{ContextFrame, Pac, push, pop}
use lettuce_os.Arch.Cpu.Stack.{SameCallers, IsLawful, pop-push}
use lettuce_os.Arch.Machine.{
  Machine, Outcome, resumes, resumes_kernel, halts, service_of, mmu_of, set_identity,
}
use lettuce_os.Arch.Svc.{
  CallKind, is_elevator, caller_frame, asm_switch, transition, svc_call, return_to, svc_return,
}
use lettuce_os.Arch.Svc.Laws.{saved, Starts}

-- The root register follows the current domain, which is one that the kernel knows.
pub record IsReady (m : Machine) : Type 0 where
  pub follows : Follows (mmu_of m)
  pub known : lookup (mmu_of m).current_domain ≢ none

-- Two machines run the same service in the same domain, for the same callers.
pub record SameIdentity (m n : Machine) : Type 0 where
  pub service_eq : service_of n ≡ service_of m
  pub domain_eq : (mmu_of n).current_domain ≡ (mmu_of m).current_domain
  pub root_eq : (mmu_of n).ttbr0 ≡ (mmu_of m).ttbr0
  pub domains_eq : (mmu_of n).domains ≡ (mmu_of m).domains
  pub callers : SameCallers m.cpu n.cpu

pub SameIdentity-trans : {m n p : Machine} → SameIdentity m n → SameIdentity n p → SameIdentity m p
SameIdentity-trans a b = record {
  service_eq = b.service_eq ∙ a.service_eq;
  domain_eq = b.domain_eq ∙ a.domain_eq;
  root_eq = b.root_eq ∙ a.root_eq;
  domains_eq = b.domains_eq ∙ a.domains_eq;
  callers = record {
    depth_eq = b.callers.depth_eq ∙ a.callers.depth_eq;
    below = λ i h. ground (arith, a.callers.below i, b.callers.below i, a.callers.depth_eq);
    pac_eq = b.callers.pac_eq ∙ a.callers.pac_eq;
  };
}

root-same :
    (a b : Mmu) (d : ℕ) → b.domains ≡ a.domains → domain_ttbr0_val b d ≡ domain_ttbr0_val a d
unfolding domain_ttbr0_val
root-same a b d e = rw e refl

pub SameIdentity-IsReady : {m n : Machine} → SameIdentity m n → IsReady m → IsReady n
SameIdentity-IsReady {m} {n} a r = record {
  follows =
      a.root_eq
      ∙ r.follows
      ∙ sym (
          root-same (mmu_of m) (mmu_of n) (mmu_of n).current_domain a.domains_eq
          ∙ ap (domain_ttbr0_val (mmu_of m)) a.domain_eq);
  known = λ e. r.known (ap lookup (sym a.domain_eq) ∙ e);
}

pub transition-kept :
    (m : Machine) (f : TrapFrame) (kind : CallKind) (r : Resolution) (pc : ℕ)
    → let n = (transition m f kind r pc).0 in
      (n.cpu ≡ m.cpu)
      × ((mmu_of n).domains ≡ (mmu_of m).domains)
      × (Follows (mmu_of m) → Follows (mmu_of n))
unfolding transition asm_switch set_current_domain
transition-kept m f kind r pc = (
  refl,
  unfold enter in ground arith,
  λ v. elim (Bool-cases (is_elevator kind && m.cpu.elevator_use_asm)) [
    | inl fast ↦ rw fast (unfold domain_ttbr0_val in refl)
    | inr slow ↦ rw slow (enter-Follows (mmu_of m) r.target.domain v)
  ],
)

module _ (pac : Pac) (law : IsLawful pac) (kind : CallKind) (m : Machine) (f : TrapFrame) where
  return-resumes :
      (p : Machine) (g : TrapFrame) (c : ContextFrame)
      → (pop pac p.cpu).0 ≡ some c
      → svc_return pac p g
        ≡ resumes
            (set_identity
              (record p { cpu = (pop pac p.cpu).1 })
              c.service_id
              (leave (mmu_of p) c.domain_id))
            (record g { elr = c.elr; spsr = c.spsr; sp_el0 = c.sp_el0 })
  unfolding svc_return return_to
  return-resumes p g c e = rw e refl

  -- Suppose that pointers are authenticated as they were signed, that the caller runs in one of the
  -- three domains that the kernel knows with the root register following it, and that its program
  -- counter has at most 39 bits. A target that the caller started by a protected call, and that
  -- leaves the saved callers and the table of domains alone and the root register following the
  -- current domain, returns to the caller, whatever else it did: the caller's service, domain,
  -- translation root, program counter, status word and stack pointer are back, the other registers
  -- are the target's, and the callers below are the ones that they were.
  pub svc_return_lem :
      (p : Machine) (g : TrapFrame)
      → IsReady m
      → f.elr < 2 ^ 39
      → Starts pac kind m f (svc_call pac kind m f)
      → SameCallers (svc_call pac kind m f).0.cpu p.cpu
      → (mmu_of p).domains ≡ (mmu_of m).domains
      → Follows (mmu_of p)
      → (q : Machine) × (h : TrapFrame) × (svc_return pac p g ≡ resumes q h)
        × SameIdentity m q
        × (h.elr ≡ f.elr)
        × (h.spsr ≡ f.spsr)
        × (h.sp_el0 ≡ f.sp_el0)
        × (h.x ≡ g.x)
  svc_return_lem p g ready small (r, pc, _, _, pushed, _, out) callers same v =
      let c = caller_frame m f in
      let started : (svc_call pac kind m f).0.cpu ≡ (push pac m.cpu c).1 =
        ap (λ o. o.0.cpu) out ∙ (transition-kept (saved pac kind m f) f kind r pc).0 in
      let (popped, below, _) =
        pop-push pac law m.cpu c p.cpu small pushed
          (subst (λ s. SameCallers s p.cpu) started callers) in
      let left = leave_lem (mmu_of p) (mmu_of m).current_domain v ready.known in
      (
        set_identity (record p { cpu = (pop pac p.cpu).1 }) (service_of m)
            (leave (mmu_of p) (mmu_of m).current_domain),
        record g { elr = f.elr; spsr = f.spsr; sp_el0 = f.sp_el0 },
        return-resumes p g c popped,
        record {
          service_eq = refl;
          domain_eq = ap (λ u. u.current_domain) left;
          root_eq =
              ap (λ u. u.ttbr0) left
              ∙ root-same (mmu_of m) (mmu_of p) (mmu_of m).current_domain same
              ∙ sym ready.follows;
          domains_eq = ap (λ u. u.domains) left ∙ same;
          callers = below;
        },
        refl,
        refl,
        refl,
        refl,
      )

-- What a service may have done between two points at which it runs: nothing that changes who it is
-- and who its callers are; or that, and then a protected call, with any calls inside it, that
-- returned, and more of the same.
pub data Nested (pac : Pac) : Machine → Machine → Type 0 where
  idle : {m n : Machine} → SameIdentity m n → Nested pac m n
  calls :
      {m n p q s : Machine} (kind : CallKind) (f g h : TrapFrame)
      → SameIdentity m n
      → f.elr < 2 ^ 39
      → Starts pac kind n f (svc_call pac kind n f)
      → lookup (mmu_of (svc_call pac kind n f).0).current_domain ≢ none
      → Nested pac (svc_call pac kind n f).0 p
      → svc_return pac p g ≡ resumes q h
      → Nested pac q s
      → Nested pac m s

abbrev machine_of : Outcome → Machine → Machine
machine_of (resumes m f) n = m
machine_of (resumes_kernel m x0) n = n
machine_of halts n = n

module _ (pac : Pac) (kind : CallKind) (n : Machine) (f : TrapFrame) where
  started : Machine
  started = (svc_call pac kind n f).0

  started-kept :
      Starts pac kind n f (svc_call pac kind n f)
      → ((mmu_of started).domains ≡ (mmu_of n).domains)
        × (Follows (mmu_of n) → Follows (mmu_of started))
  unfolding started
  started-kept (r, pc, _, _, _, _, out) =
      let t = transition-kept (saved pac kind n f) f kind r pc in
      (
        ap (λ o. (mmu_of o.0).domains) out ∙ t.1,
        λ v. subst (λ o. Follows (mmu_of o.0)) (sym out) (t.2 v),
      )

  started-IsReady :
      IsReady n
      → Starts pac kind n f (svc_call pac kind n f)
      → lookup (mmu_of started).current_domain ≢ none
      → IsReady started
  started-IsReady here starts known = record {
    follows = (started-kept starts).1 here.follows;
    known = known;
  }

  call-SameIdentity :
      (p q : Machine) (g h : TrapFrame)
      → IsLawful pac
      → IsReady n
      → f.elr < 2 ^ 39
      → Starts pac kind n f (svc_call pac kind n f)
      → lookup (mmu_of started).current_domain ≢ none
      → SameIdentity started p
      → svc_return pac p g ≡ resumes q h
      → SameIdentity n q
  call-SameIdentity p q g h law here small starts known inner back =
      let ready : IsReady p = SameIdentity-IsReady inner (started-IsReady here starts known) in
      let (q', h', e, same, _, _, _, _) =
        svc_return_lem pac law kind n f p g here small starts (unfold started in inner.callers)
          (inner.domains_eq ∙ (started-kept starts).0) ready.follows in
      subst (SameIdentity n) (ap (λ o. machine_of o p) (sym e ∙ back)) same

-- Suppose that pointers are authenticated as they were signed. A service in one of the three domains
-- that the kernel knows, with the root register following it, that goes on after protected calls and
-- any calls nested in them, as far as the 8 saved callers allow, runs as itself, in its domain, with
-- its root and with the callers that it had. This holds when every call that was made was started and
-- returned, from a program counter of at most 39 bits, and every service that was called ran in a
-- known domain. No task switch is among the steps: the saved callers are common to all tasks.
pub Nested-SameIdentity :
    {pac : Pac} {m q : Machine} → IsLawful pac → IsReady m → Nested pac m q → SameIdentity m q
unfolding started
Nested-SameIdentity law ready (idle same) = same
Nested-SameIdentity {pac} law ready
      (calls {n = n} {p = p} {q = q} kind f g h same small starts known inside back after) =
    let here = SameIdentity-IsReady same ready in
    let inner = Nested-SameIdentity law (started-IsReady pac kind n f here starts known) inside in
    let returned = call-SameIdentity pac kind n f p q g h law here small starts known inner back in
    SameIdentity-trans same (
      SameIdentity-trans returned
        (Nested-SameIdentity law (SameIdentity-IsReady returned here) after))
