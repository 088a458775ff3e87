-- ===== src/Arch/System.antt =====
-- kernel/arch/arm64/: the machine as it goes from exception to exception.
pub mod Image
pub mod Leads
pub mod Calls
pub mod Sound
pub mod Reach
pub mod Origin
use lettuce_os.Base.{ℕ, ◌&&◌, leb, ltb, if◌then◌else◌, Option, none, some, Table, List, [], ◌∷◌}
use lettuce_os.Sched.Mechanism.{TrapFrame}
use lettuce_os.Arch.Cpu.{Pac}
use lettuce_os.Arch.Timer.{Timer}
use lettuce_os.Arch.Machine.{Machine, Outcome, resumes, resumes_kernel, halts}
use lettuce_os.Arch.Syscall.{Counter}
use lettuce_os.Arch.Exception.{sync_lower, sync_el1, irq_lower, irq_el1}

-- The machine that a handler leaves, if it does not halt
abbrev pub machine_after : Outcome → Option Machine
machine_after (resumes m f) = some m
machine_after (resumes_kernel m x) = some m
machine_after halts = none

-- What services store into memory, by virtual addresses, outside the kernel's image
abbrev pub stored : Table ℕ → Table ℕ → Table ℕ
stored memory given a = if leb 0x40000000 a && ltb a 0x40200000 then memory a else given a

-- An exception or an interrupt, with the registers of the interrupted code: from EL0 and from EL1; or
-- the memory as a service's own stores leave it before the next one, which do not reach the kernel's
-- image, since no table of a domain opens it
pub data Exception : Type 0 where
  syncs_lower syncs_el1 : TrapFrame → ℕ → ℕ → Counter → Exception
  interrupts_lower interrupts_el1 : TrapFrame → Timer → ℕ → Exception
  stores : Table ℕ → Exception

unfoldable pub handle : Pac → Machine → Exception → Option Machine
handle pac m (syncs_lower f esr far c) = machine_after (sync_lower pac m f esr far c)
handle pac m (syncs_el1 f esr far c) = machine_after (sync_el1 m f esr far)
handle pac m (interrupts_lower f t intid) = machine_after (irq_lower m t f intid).0
handle pac m (interrupts_el1 f t intid) = some (irq_el1 m t intid).0
handle pac m (stores memory) =
    some (record m { io = record (m.io) { memory = stored m.io.memory memory } })

-- The machine after a history of exceptions, if none of them halts it
unfoldable pub run : Pac → Machine → List Exception → Option Machine
run pac m [] = some m
run pac m (x ∷ xs) = elim (handle pac m x) [ none ↦ none | some n ↦ run pac n xs ]
