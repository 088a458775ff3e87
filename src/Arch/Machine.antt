-- ===== src/Arch/Machine.antt =====
-- What the handlers of kernel/arch/arm64/cpu.c work on: the state of every part of the kernel.
use lettuce_os.Base.{ℕ, ◌+◌, ◌%◌, ◌^◌, update}
use lettuce_os.Capability.{Caps}
use lettuce_os.Kernel.Registry.{Registry}
use lettuce_os.Ipc.State.{Kernel}
use lettuce_os.Sched.State.{Sched}
use lettuce_os.Sched.Mechanism.{TrapFrame}
use lettuce_os.Arch.Mmu.{Mmu, Faults}
use lettuce_os.Arch.Cpu.{Cpu}
use lettuce_os.Posix.Fd.{Fds, Io}

-- The current service and the translation state stand with the scheduler, which switches them too.
pub record Machine : Type 0 where
  pub caps : Caps
  pub services : Registry
  pub sched : Sched
  pub cpu : Cpu
  pub fds : Fds
  pub io : Io

-- `current_service_id()`
abbrev pub service_of : Machine → ℕ
service_of m = m.sched.current_service

abbrev pub mmu_of : Machine → Mmu
mmu_of m = m.sched.mmu

-- What the validations of ipc/ read; the current domain is that of the page tables.
abbrev pub kernel_of : Machine → Kernel
kernel_of m = record {
  caps = m.caps;
  services = m.services;
  context = record { service_id = service_of m; domain_id = (mmu_of m).current_domain };
}

abbrev pub set_identity : Machine → ℕ → Mmu → Machine
set_identity m service mmu = record m {
  sched = record (m.sched) { current_service = service; mmu = mmu };
}

abbrev pub set_faults : Machine → Faults → Machine
set_faults m faults = record m {
  sched = record (m.sched) { mmu = record (m.sched.mmu) { faults = faults } };
}

-- `frame->x[0] = v;`
abbrev pub set_x0 : TrapFrame → ℕ → TrapFrame
set_x0 f v = record f { x = update f.x 0 v }

-- `frame->elr += 4u;`
abbrev pub skip_instruction : TrapFrame → TrapFrame
skip_instruction f = record f { elr = (f.elr + 4) % 2 ^ 64 }

-- How a handler ends: back in the interrupted code with a frame, in the kernel's own code, to which
-- `lettuce_el0_resume_kernel` jumps with a status, or in an endless wait
pub data Outcome : Type 0 where
  resumes : Machine → TrapFrame → Outcome
  resumes_kernel : Machine → ℕ → Outcome
  halts : Outcome
