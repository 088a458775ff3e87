-- ===== src/Tests/Arch.antt =====
-- kernel/arch/arm64/ with service 1 running in domain A, which may call service 2 in domain B.
use lettuce_os.Base.{
  ℕ, ◌+◌, ◌*◌, ◌%◌, ◌^◌, ◌≡◌, ◌≢◌, ◌⊎◌, inl, inr, refl, sym, ap, ◌∙◌, [], true, false, none, some,
  update, arith, fill,
}
use lettuce_os.Capability
use lettuce_os.Kernel.Registry
use lettuce_os.Kernel.Registry.{Registry, zero_descriptor, zero_dispatch, find_entry}
use lettuce_os.Kernel.Dispatch
use lettuce_os.Ipc.State.{Resolution}
use lettuce_os.Ipc.SameLayer
use lettuce_os.Ipc.Authority.{IsAuthorized}
use lettuce_os.Sched.Mechanism.{TrapFrame}
use lettuce_os.Arch.Mmu.{
  enter, lookup, set_current_domain, domain_ttbr0_val, init_roots, root_value,
}
use lettuce_os.Arch.Mmu.Domains.{Follows}
use lettuce_os.Arch.Cpu.{Cpu, Pac, push}
use lettuce_os.Arch.Cpu.Stack.{IsLawful}
use lettuce_os.Arch.Machine.{Machine, resumes, service_of, mmu_of, kernel_of}
use lettuce_os.Arch.Svc.{
  same_layer, message_of, validate, asm_switch, transition, call_entry, call_validated, svc_call,
  svc_return,
}
use lettuce_os.Arch.Svc.Laws.{
  Refuses, Starts, Saved, Runs, permission_of, svc_call-Starts, svc_call-Enters,
}
use lettuce_os.Arch.Svc.Nested.{
  IsReady, SameIdentity, Nested, idle, calls, svc_return_lem, Nested-SameIdentity,
}
use lettuce_os.Posix.Fd.{unused}
use lettuce_os.Arch.Syscall.{Counter}
use lettuce_os.Tests.Ipc.{caps, service, entry_point}
use lettuce_os.Tests.Sched.{three, blank_mmu}

-- Pointers are signed in the 16 bits above an address of 39 bits.
abbrev pub pac : Pac
pac = record {
  sign = λ p modifier. p + modifier % 2 ^ 16 * 2 ^ 39;
  auth = λ p modifier. p % 2 ^ 39;
}

pub pac-IsLawful : IsLawful pac
pac-IsLawful p modifier h = omega arith

abbrev in_domain : ℕ → ℕ → Registry → Registry
in_domain i domain t = update t i (record {
  descriptor = record (service i 1) { domain = domain };
  operations = update (λ o. zero_dispatch) 3 entry_point;
})

abbrev services : Registry
services = in_domain 1 100 (
    in_domain 2 200 (λ i. record { descriptor = zero_descriptor; operations = λ o. zero_dispatch }))

abbrev pub idle_cpu : Cpu
idle_cpu = record {
  stack = λ i. record { service_id = 0; domain_id = 0; elr = 0; spsr = 0; sp_el0 = 0 };
  depth = 0;
  pac_enabled = true;
  pac_expected_trap = false;
  pac_trap_observed = false;
  preempt_disable_count = 0;
  elevator_use_asm = true;
}

abbrev pub machine : Machine
machine = record {
  caps = caps;
  services = services;
  sched = record three { current_service = 1; mmu = init_roots blank_mmu };
  cpu = idle_cpu;
  fds = λ i. record { type = unused; flags = 0; ops = none; private_data = 0 };
  io = record { memory = λ a. a % 256; console = [] };
}

-- Registers with a request for service 2, operation 3 on resource 4 under the handle 65537
abbrev pub request : TrapFrame
request = record {
  x = update (update (update (update (λ r. 0) 0 2) 1 3) 2 4) 3 65537;
  lr = 0;
  elr = 0x41050010;
  spsr = 0;
  sp_el0 = 0x41001f00;
}

abbrev inside : Machine
inside = (svc_call pac same_layer machine request).0

entered : (service_of inside ≡ 2) × ((mmu_of inside).current_domain ≡ 200) × (inside.cpu.depth ≡ 1)
unfolding svc_call call_validated call_entry transition push validate enter lookup
    SameLayer.validate Registry.lookup Dispatch.lookup find_entry Capability.check
    Capability.check_slot Capability.decode_handle init_roots
entered = (refl, refl, refl)

svc_call-Enters_example :
    let (n, g) = svc_call pac same_layer machine request in
    Refuses pac same_layer machine request (n, g)
    ⊎ ((r : Resolution) × (pc : ℕ) × IsAuthorized
          (kernel_of machine)
          (message_of request)
          (permission_of same_layer)
          r
        × (r.entry.entry ≡ some pc)
        × Saved machine request n
        × Runs machine request r.target pc n g)
svc_call-Enters_example = svc_call-Enters pac same_layer machine request

starts : Starts pac same_layer machine request (svc_call pac same_layer machine request)
starts = elim (svc_call-Starts pac same_layer machine request) [
  | inl (s, _, e) ↦
      absurd (let same = ap (λ o. service_of o.0) e in ground (arith, same, entered.0))
  | inr entering ↦ entering
]

pub ready : IsReady machine
unfolding init_roots domain_ttbr0_val lookup root_value fill
ready = record { follows = refl; known = λ e. absurd (cc e) }

inside_kept : ((mmu_of inside).domains ≡ (mmu_of machine).domains) × Follows (mmu_of inside)
unfolding svc_call call_validated call_entry transition push validate enter lookup
    SameLayer.validate Registry.lookup Dispatch.lookup find_entry Capability.check
    Capability.check_slot Capability.decode_handle domain_ttbr0_val init_roots
inside_kept = (refl, refl)

known_b : lookup 200 ≢ none
unfolding lookup
known_b e = absurd (cc e)

inside_known : lookup (mmu_of inside).current_domain ≢ none
inside_known e = known_b (ap lookup (sym entered.1) ∙ e)

same : (m : Machine) → SameIdentity m m
same m = record {
  service_eq = refl;
  domain_eq = refl;
  root_eq = refl;
  domains_eq = refl;
  callers = record { depth_eq = refl; below = λ i h. refl; pac_eq = refl };
}

svc_return_lem_example :
    (q : Machine) × (h : TrapFrame) × (svc_return pac inside request ≡ resumes q h)
    × SameIdentity machine q
    × (h.elr ≡ request.elr)
    × (h.spsr ≡ request.spsr)
    × (h.sp_el0 ≡ request.sp_el0)
    × (h.x ≡ request.x)
svc_return_lem_example =
    svc_return_lem pac pac-IsLawful same_layer machine request inside request ready (omega arith)
      starts (same inside).callers inside_kept.0 inside_kept.1

-- A service that makes a call, and goes on when it returned
made_call : (q : Machine) × Nested pac machine q
made_call =
    let (q, h, e, _, _, _, _, _) = svc_return_lem_example in
    (
      q,
      calls same_layer request request h (same machine) (omega arith) starts inside_known
          (idle (same inside)) e (idle (same q)),
    )

Nested-SameIdentity_example : SameIdentity machine made_call.0
Nested-SameIdentity_example = Nested-SameIdentity pac-IsLawful ready made_call.1

abbrev to_domain_b : Resolution
to_domain_b = record {
  caller = service 1 1;
  target = record (service 2 1) { domain = 200 };
  entry = entry_point;
}

-- For a target whose domain is none of the three, the two ways differ: the assembly transition makes
-- it current with a root of 0, and the C path stays in the caller's domain.
abbrev to_nowhere : Resolution
to_nowhere = record { caller = service 1 1; target = service 2 1; entry = entry_point }

asm_switch_differs :
    ((asm_switch (mmu_of machine) to_nowhere).current_domain ≡ 2)
    × ((asm_switch (mmu_of machine) to_nowhere).ttbr0 ≡ 0)
    × ((enter (mmu_of machine) 2).1.current_domain ≡ 100)
unfolding asm_switch set_current_domain enter domain_ttbr0_val lookup init_roots root_value
asm_switch_differs = (refl, refl, refl)

abbrev pub counter : Counter
counter = record { ticks = 200000; freq = 62500000 }

-- A supervisor call with the immediate 1
abbrev pub svc_1 : ℕ
svc_1 = 0x56000001
