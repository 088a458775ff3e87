-- ===== src/Ipc/Gate.antt =====
-- ipc/same_layer/gate.c and the gates of ipc/cross_layer/call.c and ipc/elevator/elevator.c. The
-- entry points are code of the services, so what they do to the kernel is a parameter: `call a k` is
-- the result and the final state of the code at the address a, started in the state k.
pub mod Laws
use lettuce_os.Base.{ℕ, Bool, true, Option, none, some}
use lettuce_os.Abi.{Status, ok, error, invalid_target_entry}
use lettuce_os.Kernel.Context.{Context, context_enter, context_leave}
use lettuce_os.Ipc.State.{Kernel, Message, Resolution, Validation}
use lettuce_os.Ipc.SameLayer
use lettuce_os.Ipc.CrossLayer
use lettuce_os.Ipc.Elevator

abbrev pub Code : Type 0
Code = ℕ → Kernel → Status × Kernel

module _ (call : Code) where
  -- Enter the target's context, run the entry point, and leave by the saved context.
  unfoldable pub run_target : Kernel → Resolution → ℕ → Status × Kernel
  unfolding context_enter context_leave
  run_target k r code =
      let (previous, inside) = context_enter k.context r.target.id r.target.domain in
      let (result, k') = call code (record k { context = inside }) in
      (result, record k' { context = context_leave k'.context previous })

  -- `resolution.entry->entry` is NULL, or is run.
  unfoldable pub enter : Kernel → Resolution → Option ℕ → Status × Kernel
  enter k r none = (invalid_target_entry, k)
  enter k r (some code) = run_target k r code

  -- What all three gates do with their validation. A status of OK comes with a resolution; the
  -- second clause is never reached.
  unfoldable pub mediate : Kernel → Validation → Status × Kernel
  mediate k (ok, some r) = enter k r r.entry.entry
  mediate k (ok, none) = (error, k)
  mediate k (status, r) = (status, k)

  unfoldable pub same_layer_gate : Kernel → Message → Status × Kernel
  same_layer_gate k m = mediate k (SameLayer.validate true k m)

  unfoldable pub cross_layer_gate : Kernel → Option Message → Status × Kernel
  cross_layer_gate k m = mediate k (CrossLayer.validate true k m)

  unfoldable pub elevator_gate : Kernel → Option Message → Status × Kernel
  elevator_gate k m = mediate k (Elevator.policy true k m)
