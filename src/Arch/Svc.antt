-- ===== src/Arch/Svc.antt =====
-- The supervisor calls for protected calls and for returning from them, of
-- `lettuce_arch_sync_lower_el_handler` in kernel/arch/arm64/cpu.c, with the transition of
-- kernel/arch/arm64/elevator.S. A register is a 64-bit word, cut to 32 bits for an identifier.
pub mod Laws
pub mod Nested
use lettuce_os.Base.{ℕ, ◌%◌, ◌^◌, Bool, true, false, ◌&&◌, Option, none, some, if◌then◌else◌}
use lettuce_os.Abi.{Status, ok, overflow, invalid_target_entry, code}
use lettuce_os.Sched.Mechanism.{TrapFrame}
use lettuce_os.Ipc.State.{Message, Resolution, Validation}
use lettuce_os.Ipc.SameLayer
use lettuce_os.Ipc.CrossLayer
use lettuce_os.Ipc.Elevator
use lettuce_os.Arch.Mmu.{Mmu, enter, leave, set_current_domain, domain_ttbr0_val, domain_stack_top}
use lettuce_os.Arch.Cpu.{Cpu, ContextFrame, Pac, push, pop}
use lettuce_os.Arch.Machine.{
  Machine, Outcome, resumes, resumes_kernel, service_of, mmu_of, kernel_of, set_identity, set_x0,
}

-- The immediate of the supervisor call: 1, 2 or 3
pub data CallKind : Type 0 where
  same_layer cross_layer elevator : CallKind

abbrev pub is_elevator : CallKind → Bool
is_elevator elevator = true
is_elevator _ = false

-- The request in the registers x0 to x3
abbrev pub message_of : TrapFrame → Message
message_of f = record {
  target_service_id = f.x 0 % 2 ^ 32;
  operation_id = f.x 1 % 2 ^ 32;
  resource_id = f.x 2 % 2 ^ 32;
  capability_handle = f.x 3 % 2 ^ 32;
}

-- The caller that is saved for the return
abbrev pub caller_frame : Machine → TrapFrame → ContextFrame
caller_frame m f = record {
  service_id = service_of m;
  domain_id = (mmu_of m).current_domain;
  elr = f.elr;
  spsr = f.spsr;
  sp_el0 = f.sp_el0;
}

unfoldable pub validate : CallKind → Machine → Message → Validation
validate same_layer m msg = SameLayer.validate true (kernel_of m) msg
validate cross_layer m msg = CrossLayer.validate true (kernel_of m) (some msg)
validate elevator m msg = Elevator.policy true (kernel_of m) (some msg)

-- The frame with which the target starts, at EL0 with its own stack
abbrev pub target_frame : TrapFrame → Resolution → ℕ → TrapFrame
target_frame f r pc = record f { elr = pc; spsr = 0; sp_el0 = domain_stack_top r.target.domain }

-- The transition of elevator.S: the target's root, installed without a look at the current domain
unfoldable pub asm_switch : Mmu → Resolution → Mmu
asm_switch mmu r = record (set_current_domain mmu r.target.domain) {
  ttbr0 = domain_ttbr0_val mmu r.target.domain;
}

unfoldable pub transition : Machine → TrapFrame → CallKind → Resolution → ℕ → Machine × TrapFrame
transition m f kind r pc =
    let mmu =
      if is_elevator kind && m.cpu.elevator_use_asm
      then asm_switch (mmu_of m) r
      else (enter (mmu_of m) r.target.domain).1 in
    (set_identity m r.target.id mmu, target_frame f r pc)

module _ (pac : Pac) where
  -- From the entry point on
  unfoldable pub call_entry :
      Machine → TrapFrame → CallKind → Resolution → Option ℕ → Machine × TrapFrame
  call_entry m f kind r none = (m, set_x0 f (code invalid_target_entry))
  call_entry m f kind r (some pc) =
      let (pushed, cpu) = push pac m.cpu (caller_frame m f) in
      if pushed
      then transition (record m { cpu = cpu }) f kind r pc
      else (m, set_x0 f (code overflow))

  -- From the validation on. A status of OK comes with a resolution, so the second clause is never
  -- reached.
  unfoldable pub call_validated : Machine → TrapFrame → CallKind → Validation → Machine × TrapFrame
  call_validated m f kind (ok, some r) = call_entry m f kind r r.entry.entry
  call_validated m f kind (ok, none) = (m, set_x0 f (code invalid_target_entry))
  call_validated m f kind (status, r) = (m, set_x0 f (code status))

  unfoldable pub svc_call : CallKind → Machine → TrapFrame → Machine × TrapFrame
  svc_call kind m f = call_validated m f kind (validate kind m (message_of f))

  -- The return to a saved caller, or to the kernel's own code
  unfoldable pub return_to : Machine → Cpu → Option ContextFrame → TrapFrame → Outcome
  return_to m cpu none f = resumes_kernel m (f.x 0)
  return_to m cpu (some caller) f =
      resumes
        (set_identity (record m { cpu = cpu }) caller.service_id
          (leave (mmu_of m) caller.domain_id))
        (record f { elr = caller.elr; spsr = caller.spsr; sp_el0 = caller.sp_el0 })

  unfoldable pub svc_return : Machine → TrapFrame → Outcome
  svc_return m f = let (caller, cpu) = pop pac m.cpu in return_to m cpu caller f
