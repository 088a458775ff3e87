-- ===== src/Arch/Exception.antt =====
-- The handlers of kernel/arch/arm64/cpu.c. The syndrome and fault address registers, and the
-- interrupt that the controller reports, are arguments; what the handlers print, and telling the
-- controller that an interrupt ends, changes nothing here.
pub mod Laws
use lettuce_os.Base.{
  ℕ, ◌+◌, ◌/◌, ◌%◌, ◌^◌, Bool, true, false, ◌&&◌, ◌||◌, not, Option, none, some, ◌==◌,
  if◌then◌else◌,
}
use lettuce_os.Abi.{Status, ok, aborted, denied, code}
use lettuce_os.Sched.State.{Sched}
use lettuce_os.Sched.Mechanism.{TrapFrame, yield, tick}
use lettuce_os.Arch.Mmu.{handle_fault, handle_sysreg_trap}
use lettuce_os.Arch.Cpu.{Cpu, Pac, preempt_is_enabled}
use lettuce_os.Arch.Timer
use lettuce_os.Arch.Timer.{Timer}
use lettuce_os.Arch.Machine.{
  Machine, Outcome, resumes, resumes_kernel, halts, mmu_of, set_faults, skip_instruction,
}
use lettuce_os.Arch.Svc.{CallKind, same_layer, cross_layer, elevator, svc_call, svc_return}
use lettuce_os.Arch.Syscall.{Counter, syscall}

-- `(esr >> 26u) & 0x3fu`
abbrev pub exception_class : ℕ → ℕ
exception_class esr = esr / 2 ^ 26 % 64

abbrev pub is_data_abort : ℕ → Bool
is_data_abort ec = ec == 0x24 || ec == 0x25

abbrev resumes_with : Machine × TrapFrame → Outcome
resumes_with (m, f) = resumes m f

-- A frame that the scheduler was given is a frame that it gives back.
unfoldable pub svc_yield : Machine → TrapFrame → Outcome
svc_yield m f =
    let (sched, f') = yield m.sched (some f) in
    elim f' [
      | none ↦ resumes (record m { sched = sched }) f
      | some g ↦ resumes (record m { sched = sched }) g
    ]

-- A supervisor call, by its immediate
unfoldable pub handle_svc : Pac → Machine → TrapFrame → ℕ → Counter → Outcome
handle_svc pac m f imm c =
    if imm == 0
    then svc_return pac m f
    else if imm == 1
    then resumes_with (svc_call pac same_layer m f)
    else if imm == 2
    then resumes_with (svc_call pac cross_layer m f)
    else if imm == 3
    then resumes_with (svc_call pac elevator m f)
    else if imm == 4
    then svc_yield m f
    else if imm == 5
    then resumes_with (syscall m f c)
    else halts

-- `lettuce_arch_sync_lower_el_handler`
unfoldable pub sync_lower : Pac → Machine → TrapFrame → ℕ → ℕ → Counter → Outcome
sync_lower pac m f esr far c =
    let ec = exception_class esr in
    let (expected, faults) = handle_fault (mmu_of m).faults esr far f.elr in
    let (trap, faults') = handle_sysreg_trap (mmu_of m).faults esr f.elr in
    if ec == 0x15
    then handle_svc pac m f (esr % 2 ^ 16) c
    else if is_data_abort ec
    then if expected then resumes_kernel (set_faults m faults) (code aborted) else halts
    else if ec == 0x18 || ec == 0
    then if trap then resumes_kernel (set_faults m faults') (code denied) else halts
    else halts

abbrev pub observe_pac_trap : Machine → Machine
observe_pac_trap m = record m {
  cpu = record (m.cpu) { pac_trap_observed = true; pac_expected_trap = false };
}

-- `lettuce_arch_sync_el1_handler`
unfoldable pub sync_el1 : Machine → TrapFrame → ℕ → ℕ → Outcome
sync_el1 m f esr far =
    let ec = exception_class esr in
    let (expected, faults) = handle_fault (mmu_of m).faults esr far f.elr in
    if is_data_abort ec && expected
    then resumes (set_faults m faults) (skip_instruction f)
    else if ec == 0x1c && m.cpu.pac_expected_trap
    then resumes (observe_pac_trap m) (skip_instruction f)
    else halts

abbrev pub vtimer : ℕ
vtimer = 27

-- `lettuce_timer_irq_handler`
unfoldable pub timer_irq : Machine → Timer → Machine × Timer
timer_irq m t =
    (record m { sched = record (m.sched) { ticks = (m.sched.ticks + 1) % 2 ^ 64 } }, Timer.rearm t)

-- `lettuce_arch_irq_el1_handler`
unfoldable pub irq_el1 : Machine → Timer → ℕ → Machine × Timer
irq_el1 m t intid = if intid == vtimer then timer_irq m t else (m, t)

-- The tick in the handler. A tick that stops the scheduler, at the preemption limit, does not come
-- back to the frame, but jumps into the kernel.
unfoldable pub tick_outcome : Machine → TrapFrame → Sched × Option TrapFrame → Outcome
tick_outcome m f (sched, none) = resumes (record m { sched = sched }) f
tick_outcome m f (sched, some g) =
    if sched.is_active
    then resumes (record m { sched = sched }) g
    else resumes_kernel (record m { sched = sched }) (code ok)

-- `lettuce_arch_irq_lower_el_handler`
unfoldable pub irq_lower : Machine → Timer → TrapFrame → ℕ → Outcome × Timer
irq_lower m t f intid =
    let (m', t') = timer_irq m t in
    if intid == vtimer
    then if m'.sched.is_active && preempt_is_enabled m'.cpu
      then (tick_outcome m' f (tick m'.sched (some f)), t')
      else (resumes m' f, t')
    else (resumes m f, t)
