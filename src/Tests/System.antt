-- ===== src/Tests/System.antt =====
-- kernel/arch/arm64/: histories of exceptions.
use lettuce_os.Base.{
  ℕ, ◌%◌, ◌==◌, if◌then◌else◌, arith, fill, List, ◌≡◌, ◌≢◌, refl, some, [], ◌∷◌, true,
}
use lettuce_os.Capability.Stale.{creates, step}
use lettuce_os.Capability
use lettuce_os.Capability.Grants.{Grant, Allows, grant_of}
use lettuce_os.Ipc.SameLayer
use lettuce_os.Kernel.Registry
use lettuce_os.Kernel.Registry.{find_entry}
use lettuce_os.Kernel.Dispatch
use lettuce_os.Arch.Timer.{Timer}
use lettuce_os.Arch.Mmu.{enter, lookup, init_roots}
use lettuce_os.Arch.Cpu.{push}
use lettuce_os.Arch.Machine.{Machine}
use lettuce_os.Arch.Svc.{same_layer, svc_call, validate, transition, call_entry, call_validated}
use lettuce_os.Arch.Exception.{sync_lower, handle_svc, irq_el1}
use lettuce_os.Arch.System.{Exception, syncs_lower, interrupts_el1, stores, stored, handle, run}
use lettuce_os.Arch.System.Leads.{IsSound}
use lettuce_os.Arch.System.Reach.{run-IsSound}
use lettuce_os.Arch.System.Origin.{Evolves, inits, calls, Created, svc_call-Created}
use lettuce_os.Tests.Sched.{three-Solo}
use lettuce_os.Tests.Arch.{pac, machine, ready, request, svc_1, counter}

abbrev timer : Timer
timer = record { interval = 625000; enabled = true; tval = 0; ctl = 1 }

-- Service 1 calls service 2, the timer interrupts the kernel, and service 2 writes a 7 into its page
-- and tries to write one into the kernel's image.
abbrev interrupted : Machine
interrupted = (irq_el1 (svc_call pac same_layer machine request).0 timer 27).0

abbrev written : ℕ → ℕ
written a = if a == 0x41001000 then 7 else if a == 0x40100000 then 7 else a % 256

abbrev after_call : Machine
after_call = record interrupted {
  io = record (interrupted.io) { memory = stored interrupted.io.memory written };
}

abbrev history : List Exception
history =
    syncs_lower request svc_1 0 counter ∷ interrupts_el1 request timer 27 ∷ stores written ∷ []

ran : run pac machine history ≡ some after_call
unfolding run handle sync_lower handle_svc
ran = refl

machine-IsSound : IsSound machine
machine-IsSound = record { follows = ready.follows; depth_le = omega arith; solo = three-Solo }

run-IsSound_example : IsSound after_call
run-IsSound_example = run-IsSound pac machine after_call history machine-IsSound ran

-- The capability table is initialized, service 1 gets a capability to call service 2, and the rest of
-- the state becomes what it is in the tests.
abbrev granted : Machine
granted = record machine { caps = step (Capability.init machine.caps) (creates 1 2 3 1 4) }

granted-Evolves : Evolves pac granted
granted-Evolves = calls (creates 1 2 3 1 4) (inits machine)

let_in : (svc_call pac same_layer granted request).0.cpu.depth ≡ 1
unfolding step Capability.init Capability.create Capability.is_refused Capability.make_handle
    svc_call call_validated call_entry transition push validate enter lookup SameLayer.validate
    Registry.lookup Dispatch.lookup find_entry Capability.check Capability.check_slot
    Capability.decode_handle fill init_roots
let_in = refl

enters : (svc_call pac same_layer granted request).0.cpu.depth ≢ granted.cpu.depth
enters e = absurd (let one = let_in in ground (arith, one, e))

svc_call-Created_example :
    (g : Grant) × Created granted-Evolves g
    × (grant_of granted.caps 65537 ≡ some g)
    × Allows g 1 2 3 1 4
svc_call-Created_example = svc_call-Created granted-Evolves same_layer request enters
