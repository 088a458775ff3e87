-- ===== src/Arch/Svc/Laws.antt =====
-- kernel/arch/arm64/cpu.c: what a protected call from EL0, and the return from it, do.
use lettuce_os.Base.{
  ℕ, ◌+◌, ◌<◌, ◌≡◌, ◌≢◌, ◌⊎◌, inl, inr, refl, sym, subst, true, false, Option, none, some, arith,
  if◌then◌else◌, Bool-cases,
}
use lettuce_os.Abi.{Status, ok, overflow, invalid_target_entry, code, is_ok, op_call}
use lettuce_os.Sched.Mechanism.{TrapFrame}
use lettuce_os.Ipc.State.{Message, Resolution, Validation}
use lettuce_os.Ipc.Elevator.{call_and_critical}
use lettuce_os.Ipc.Authority.{IsAuthorized, same_layer_iff, cross_layer_iff, elevator_iff}
use lettuce_os.Kernel.Registry.{Descriptor}
use lettuce_os.Arch.Mmu.{
  domain_ttbr0_val, domain_stack_top, Mmu, enter, leave, lookup, set_current_domain,
}
use lettuce_os.Arch.Mmu.Domains.{Follows, leave_lem}
use lettuce_os.Arch.Cpu.{Pac, push, context_max}
use lettuce_os.Arch.Machine.{Machine, service_of, mmu_of, kernel_of, set_x0}
use lettuce_os.Arch.Svc.{
  CallKind, same_layer, cross_layer, elevator, is_elevator, message_of, caller_frame, validate,
  asm_switch, transition, call_entry, call_validated, svc_call,
}

-- The permissions that a kind of call asks for
abbrev pub permission_of : CallKind → ℕ
permission_of kind = if is_elevator kind then call_and_critical else op_call

validate-IsAuthorized :
    (kind : CallKind) (m : Machine) (msg : Message) (r : Resolution)
    → validate kind m msg ≡ (ok, some r)
    → IsAuthorized (kernel_of m) msg (permission_of kind) r
unfolding validate
validate-IsAuthorized same_layer m msg r h = ((same_layer_iff (kernel_of m) msg r).0 h).0
validate-IsAuthorized cross_layer m msg r h = ((cross_layer_iff (kernel_of m) msg r).0 h).0
validate-IsAuthorized elevator m msg r h = ((elevator_iff (kernel_of m) msg r).0 h).0

module _ (pac : Pac) (kind : CallKind) (m : Machine) (f : TrapFrame) where
  -- The machine with the caller saved
  abbrev pub saved : Machine
  saved = record m { cpu = (push pac m.cpu (caller_frame m f)).1 }

  -- The call is refused: with an error in x0 and nothing else changed.
  abbrev pub Refuses : Machine × TrapFrame → Type 0
  Refuses out = (s : Status) × (is_ok s ≡ false) × (out ≡ (m, set_x0 f (code s)))

  -- The call enters the target: the request is authorized, the caller is saved, and the target's
  -- code is started.
  abbrev pub Starts : Machine × TrapFrame → Type 0
  Starts out =
      (r : Resolution) × (pc : ℕ) × IsAuthorized (kernel_of m) (message_of f) (permission_of kind) r
      × (r.entry.entry ≡ some pc)
      × ((push pac m.cpu (caller_frame m f)).0 ≡ true)
      × (m.cpu.depth < context_max)
      × (out ≡ transition saved f kind r pc)

  push-room : (push pac m.cpu (caller_frame m f)).0 ≡ true → m.cpu.depth < context_max
  unfolding push
  push-room h = ground arith

  entry-cases :
      (r : Resolution) (e : Option ℕ)
      → r.entry.entry ≡ e
      → IsAuthorized (kernel_of m) (message_of f) (permission_of kind) r
      → Refuses (call_entry pac m f kind r e) ⊎ Starts (call_entry pac m f kind r e)
  unfolding call_entry
  entry-cases r none e a = inl (invalid_target_entry, refl, refl)
  entry-cases r (some pc) e a = elim (Bool-cases (push pac m.cpu (caller_frame m f)).0) [
    | inl room ↦ inr (r, pc, a, e, room, push-room room, rw room)
    | inr full ↦ inl (overflow, refl, rw full)
  ]

  validated-cases :
      (v : Validation)
      → ((r : Resolution)
          → v ≡ (ok, some r)
          → IsAuthorized (kernel_of m) (message_of f) (permission_of kind) r)
      → Refuses (call_validated pac m f kind v) ⊎ Starts (call_validated pac m f kind v)
  unfolding call_validated
  validated-cases (ok, some r) a = entry-cases r r.entry.entry refl (a r refl)
  validated-cases (ok, none) a = inl (invalid_target_entry, refl, refl)
  validated-cases (status, r) a = inl (status, refl, refl)

  -- A protected call is refused, or starts by the transition.
  pub svc_call-Starts : Refuses (svc_call pac kind m f) ⊎ Starts (svc_call pac kind m f)
  unfolding svc_call
  svc_call-Starts =
      validated-cases (validate kind m (message_of f))
        λ r h. validate-IsAuthorized kind m (message_of f) r h

-- The target's domain is none of the three; or it is the current one now, with its root, or it was it
-- before and the root register is as it was.
abbrev pub Arrives : Mmu → ℕ → Mmu → Type 0
Arrives u domain w =
    (lookup domain ≡ none)
    ⊎ ((w.current_domain ≡ domain)
        × ((w.ttbr0 ≡ domain_ttbr0_val u domain)
            ⊎ ((u.current_domain ≡ domain) × (w.ttbr0 ≡ u.ttbr0))))

-- The caller m with the registers f lies on top of the saved callers.
pub record Saved (m : Machine) (f : TrapFrame) (n : Machine) : Type 0 where
  pub room : m.cpu.depth < 8
  pub depth_eq : n.cpu.depth ≡ m.cpu.depth + 1
  pub service_eq : (n.cpu.stack m.cpu.depth).service_id ≡ service_of m
  pub domain_eq : (n.cpu.stack m.cpu.depth).domain_id ≡ (mmu_of m).current_domain
  pub spsr_eq : (n.cpu.stack m.cpu.depth).spsr ≡ f.spsr
  pub sp_el0_eq : (n.cpu.stack m.cpu.depth).sp_el0 ≡ f.sp_el0

-- The service with the descriptor d runs from pc on at EL0, with the stack of its domain and the
-- caller's other registers.
pub record Runs (m : Machine) (f : TrapFrame) (d : Descriptor) (pc : ℕ) (n : Machine)
    (g : TrapFrame) : Type 0 where
  pub service_eq : service_of n ≡ d.id
  pub arrives : Arrives (mmu_of m) d.domain (mmu_of n)
  pub caps_eq : n.caps ≡ m.caps
  pub services_eq : n.services ≡ m.services
  pub elr_eq : g.elr ≡ pc
  pub spsr_eq : g.spsr ≡ 0
  pub sp_el0_eq : g.sp_el0 ≡ domain_stack_top d.domain
  pub x_eq : g.x ≡ f.x
  pub lr_eq : g.lr ≡ f.lr

module _ (pac : Pac) (kind : CallKind) (m : Machine) (f : TrapFrame) where
  saved-Saved : (push pac m.cpu (caller_frame m f)).0 ≡ true → Saved m f (saved pac kind m f)
  unfolding push
  saved-Saved h = record {
    room = ground arith;
    depth_eq = ground arith;
    service_eq = ground arith;
    domain_eq = ground arith;
    spsr_eq = ground arith;
    sp_el0_eq = ground arith;
  }

  transition-Arrives :
      (r : Resolution) (pc : ℕ)
      → Arrives (mmu_of m) r.target.domain (mmu_of (transition (saved pac kind m f) f kind r pc).0)
  unfolding transition asm_switch set_current_domain enter domain_ttbr0_val lookup
  transition-Arrives r pc = ground arith

  transition-Runs :
      (r : Resolution) (pc : ℕ)
      → let (n, g) = transition (saved pac kind m f) f kind r pc in Runs m f r.target pc n g
  transition-Runs r pc =
      let arrives = transition-Arrives r pc in
      unfold transition in
      record {
        service_eq = refl;
        arrives = unfold transition in arrives;
        caps_eq = refl;
        services_eq = refl;
        elr_eq = refl;
        spsr_eq = refl;
        sp_el0_eq = refl;
        x_eq = refl;
        lr_eq = refl;
      }

  transition-Saved :
      (r : Resolution) (pc : ℕ)
      → (push pac m.cpu (caller_frame m f)).0 ≡ true
      → Saved m f (transition (saved pac kind m f) f kind r pc).0
  transition-Saved r pc h =
      let kept = saved-Saved h in
      unfold transition in
      record {
        room = kept.room;
        depth_eq = kept.depth_eq;
        service_eq = kept.service_eq;
        domain_eq = kept.domain_eq;
        spsr_eq = kept.spsr_eq;
        sp_el0_eq = kept.sp_el0_eq;
      }

  -- A protected call from EL0 either is refused, with the number of an error in x0 and nothing else
  -- changed; or the request is authorized, with the permission CALL, or CALL and CRITICAL for the
  -- elevator, and the caller's service, domain, status and stack pointer are saved on top of fewer
  -- than 8 callers, and the target runs at its registered entry point: as the current service, at EL0,
  -- with the stack and, if its domain is one of the three, the domain and root of the target, the
  -- caller's other registers, and no capability or service changed.
  pub svc_call-Enters :
      let (n, g) = svc_call pac kind m f in
      Refuses pac kind m f (n, g)
      ⊎ ((r : Resolution) × (pc : ℕ) × IsAuthorized
            (kernel_of m)
            (message_of f)
            (permission_of kind)
            r
          × (r.entry.entry ≡ some pc)
          × Saved m f n
          × Runs m f r.target pc n g)
  svc_call-Enters = elim (svc_call-Starts pac kind m f) [
    | inl refused ↦ inl refused
    | inr (r, pc, a, entry, pushed, _, e) ↦ inr (
      r,
      pc,
      a,
      entry,
      subst (λ o. Saved m f o.0) (sym e) (transition-Saved r pc pushed),
      subst (λ o. Runs m f r.target pc o.0 o.1) (sym e) (transition-Runs r pc),
    )
  ]

-- The hand-written transition of the elevator does what the C path does, for a target whose domain
-- is known, from a state whose root register holds the current domain's root.
pub asm_switch-enter :
    (mmu : Mmu) (r : Resolution)
    → Follows mmu
    → lookup r.target.domain ≢ none
    → asm_switch mmu r ≡ (enter mmu r.target.domain).1
unfolding asm_switch set_current_domain
asm_switch-enter mmu r v known = sym (unfold leave in leave_lem mmu r.target.domain v known)
