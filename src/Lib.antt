-- ===== src/Lib.antt =====
-- A verification library for the Lettuce microkernel: its capability system, service registry, call
-- paths, memory, tasks and scheduler, its ARM64 port and its POSIX layer, modelled from the C sources,
-- with the theorems that make each part correct.
--
-- How the parts interact. A service runs in a context (kernel/main/context.c and
-- kernel/main/protection.c) that says who it is and in which protection domain. It calls another
-- service by one of three gates of ipc/: the same-layer gate, the cross-layer gate and the elevator.
-- Each gate looks both services up in the registry (kernel/main/kernel.c), asks the capability table
-- (kernel/main/capability.c) whether the running service holds a grant for the request, finds the entry
-- point in the dispatch table (kernel/main/dispatch.c), and runs it in the target's context. Shared
-- buffers (memory/shared/buffer.c) ask the same capability table; pages (memory/allocator/fixed.c) are
-- handed out to domains. Tasks (kernel/main/task.c) are scheduled by kernel/scheduler/, whose
-- mechanism (scheduler.c) asks one of two policies (rr.c, eevdf.c) whom to run. The growing circular
-- buffer of shared/ stands by itself. On ARM64 a service runs in EL0, with the translation tables of
-- its domain (kernel/arch/arm64/mmu.c); a supervisor call enters the handlers of kernel/arch/arm64/cpu.c,
-- which make the same three kinds of call with the validations of ipc/ and a stack of saved callers, or
-- yield to the scheduler, or run a system call of runtime/posix/, on which the C library stands. All of
-- them together are the machine of Arch.System, which goes from exception to exception.
--
-- The files.
--   Base            shared names: tests on numbers, C arrays as functions, bit masks, least elements
--   Abi             include/lettuce/{errors,types,capability}.h: statuses and constants
--   Capability      kernel/main/capability.c. Handle: the handles' packing; Valid, Keeps: the free
--                   list's invariant; Grants, Refine: the table as a map from handles to grants;
--                   Stale, Provenance: histories of calls
--   Kernel          Registry: kernel/main/kernel.c; Dispatch: kernel/main/dispatch.c; Context:
--                   kernel/main/context.c and protection.c in the build without an MMU; Protection:
--                   the same in the ARM64 build
--   Ipc             State: what the gates read; SameLayer, CrossLayer, Elevator: the validations;
--                   Gate: the gates; Authority: what the validations accept
--   Memory          Allocator: memory/allocator/fixed.c; Buffers: memory/shared/buffer.c
--   Task            kernel/main/task.c
--   Sched           State: the static variables and the table scan; RoundRobin: rr.c; Eevdf: eevdf.c;
--                   Mechanism: scheduler.c, with Keeps, Switch, Preempt, Solo and Root for what a
--                   schedule keeps, hands over and lets run
--   Posix           runtime/posix/src/. Fd: fd.c; Sys: sys.c; Calls: posix.c; Clock: the times
--   Arch            kernel/arch/arm64/. Mmu: mmu.c, with Tables for what lettuce_mmu_init builds
--                   and Setup for what else it does; Cpu: the saved callers and flags of cpu.c;
--                   Console: what cpu.c prints; Timer: timer.c; Machine: the state of all parts;
--                   Svc: the calls and returns of cpu.c; Syscall: its system calls; Exception: its
--                   handlers; Gic: gic.c; Features: mte.c and poe.c; Demo: the parts of main.c that
--                   compute; System: the exceptions, one after the other, with Image for the kernel's
--                   bytes in memory, Leads and Sound for what every exception keeps, Reach for
--                   histories of exceptions, and Origin for where authority comes from
--   Shared          DynamicArray: shared/dynamic_array/dynamic_array.c, with Contents for the list
--                   that an array holds
--   Tests           runs at concrete states, and the theorems applied there
--
-- How state and operations correspond to the code. The static variables of a file are a record or a
-- table, which each operation takes first and returns last; an operation has the name of its C
-- function without the prefix (`lettuce_capability_create` is `create` of Capability). A pointer into
-- a table is the index of its slot, `none` for NULL; a pointer through which a function returns a
-- value is a component of its result, and a Boolean argument `given` says whether it was not NULL.
-- Identifiers, sizes and registers are natural numbers; where the code's arithmetic can wrap, the
-- wrap-around is written out. A function pointer is the address of the code; what the services' code
-- does is the parameter `call` of Ipc.Gate, and what `malloc` gives is the parameter `malloc` of
-- Shared.DynamicArray. Of the hardware, a register that the code only reads is an argument (the
-- syndrome of an exception, the counter), one that it writes and relies on is a field (TTBR0), a write
-- to the interrupt controller is an address with a value, and pointer authentication is the parameter
-- `pac` of Arch.Cpu. An `int` or an `int64_t` that may be negative is an integer of Base.Int. The
-- addresses that the linker chooses for tables and pages are the record Layout of Arch.Mmu.Tables.
--
-- Bounds. Loops over a table recurse on the number of slots that are left. The search for a span of
-- pages has fuel for 65 starts, one more than there are pages, so it never runs out. The tables have
-- the sizes of the code: 4096 capabilities, 256 services of 64 operations, 64 pages, 16 buffers and 16
-- tasks, 16 descriptors, 8 saved callers and tables of 512 entries. The loop that collects the digits of
-- a 64-bit word has fuel for 20 of them.
--
-- What is not modelled: of the ARM64 port, the boot and exception code in assembly, the writes of the
-- registers that configure the MMU, barrier instructions, what the exception handlers print, and the
-- scenarios of main.c, which run assembly and print; the host builds of runtime/posix/; the wrappers
-- of runtime/c and runtime/rust; the stand-ins of kernel/main/host_arch_stubs.c; the signed lag that
-- eevdf.c computes for observers only; padding fields; and the names of policies and domains. The
-- kernel runs one call at a time, so there are no interleavings inside an operation.
--
-- Memory. In Arch.System the bytes that services and system calls read and store are the field `io`, by
-- their virtual addresses, and the kernel's static variables are fields of their own. The link between
-- them is the kernel's image, the addresses from 0x40000000 to 0x40200000, at which the kernel finds
-- its variables. The tables of mmu.c keep them for the kernel (Arch.Mmu.Tables), so a service's own
-- stores are taken not to go there; the pages of the domains have other virtual addresses, also where
-- the linker places them within the image, and a store of a service may change any byte at them at any
-- time. What system calls store is followed address by address. Every address has a byte: a system call
-- with a pointer that is not mapped takes a data abort at EL1 in the code, and cpu.c halts; here it goes
-- on with some byte. So what is said of system calls is said of mapped memory, and nothing is said about
-- whether the machine goes on. Addresses have at most 39 bits, as TCR_EL1 sets them up. The private page
-- of domain A is the constant of mmu.c, 0x41000000, and not an array of the kernel.
--
-- The scheduler, the wake-up loop and both policies look a slot of the task table up under the
-- generations 1 to 10 only, and so does the model: whatever is said of ready tasks is said of tasks of
-- these generations.
pub mod Base
pub mod Abi
pub mod Capability
pub mod Kernel
pub mod Ipc
pub mod Memory
pub mod Task
pub mod Sched
pub mod Shared
pub mod Posix
pub mod Arch
pub mod Tests
