-- ===== src/Tests/Ipc.antt =====
-- ipc/ at a kernel with three services, in layers 1, 1 and 2, and one grant: service 1 may call
-- operation 3 of service 2, critically too, on the resource 4.
use lettuce_os.Base.{ℕ, ◌≡◌, ◌≢◌, ◌⊎◌, ◌↔◌, refl, true, none, some, update}
use lettuce_os.Abi.{ok, error, different_layer, op_call}
use lettuce_os.Capability
use lettuce_os.Capability.{Caps, Entry, init_entry}
use lettuce_os.Kernel.Registry
use lettuce_os.Kernel.Registry.{
  Registry, Descriptor, DispatchEntry, RegistryEntry, zero_descriptor, zero_dispatch, find_entry,
}
use lettuce_os.Kernel.Dispatch
use lettuce_os.Ipc.State.{Kernel, Message, Resolution}
use lettuce_os.Ipc.SameLayer
use lettuce_os.Ipc.CrossLayer
use lettuce_os.Ipc.Elevator
use lettuce_os.Ipc.Elevator.{call_and_critical}
use lettuce_os.Ipc.Gate.{
  Code, same_layer_gate, cross_layer_gate, elevator_gate, mediate, enter, run_target,
}
use lettuce_os.Ipc.Gate.Laws.{Mediates, gates_mediate}
use lettuce_os.Ipc.Authority.{
  IsAuthorized, same_layer_iff, cross_layer_iff, elevator_iff, elevator_is_stricter,
}

abbrev pub service : ℕ → ℕ → Descriptor
service i layer = record { id = i; layer = layer; domain = i; flags = 1 }

abbrev pub entry_point : DispatchEntry
entry_point = record { entry = some 100; active = true }

abbrev services : Registry
services =
    update
      (update
        (update (λ i. record { descriptor = zero_descriptor; operations = λ o. zero_dispatch }) 1
          (record { descriptor = service 1 1; operations = λ o. zero_dispatch }))
        2
        (record {
          descriptor = service 2 1;
          operations = update (λ o. zero_dispatch) 3 entry_point;
        }))
      7
      (record { descriptor = service 7 2; operations = update (λ o. zero_dispatch) 3 entry_point })

abbrev grant_to : ℕ → Entry
grant_to target = record {
  generation = 1;
  active = true;
  owner = 1;
  target = target;
  operation = 3;
  resource = 4;
  permissions = 33;
}

-- Handle 65537 is for service 2, and handle 65538 for service 7.
abbrev pub caps : Caps
caps = record {
  table = update (update (λ i. init_entry) 0 (grant_to 2)) 1 (grant_to 7);
  free_slots = λ i. 0;
  free_count = 0;
}

abbrev kernel : Kernel
kernel = record {
  caps = caps;
  services = services;
  context = record { service_id = 1; domain_id = 1 };
}

abbrev call_two : Message
call_two = record {
  target_service_id = 2;
  operation_id = 3;
  resource_id = 4;
  capability_handle = 65537;
}

abbrev call_seven : Message
call_seven = record {
  target_service_id = 7;
  operation_id = 3;
  resource_id = 4;
  capability_handle = 65538;
}

abbrev resolved : ℕ → ℕ → Resolution
resolved target layer = record {
  caller = service 1 1;
  target = service target layer;
  entry = entry_point;
}

-- Code of a service that breaks the context and reports an error
abbrev rude : Code
rude a k = (error, record k { context = record { service_id = 9; domain_id = 9 } })

same_layer_accepts : SameLayer.validate true kernel call_two ≡ (ok, some (resolved 2 1))
unfolding SameLayer.validate Registry.lookup Dispatch.lookup find_entry Capability.check
    Capability.check_slot Capability.decode_handle
same_layer_accepts = refl

same_layer_refuses : SameLayer.validate true kernel call_seven ≡ (different_layer, none)
unfolding SameLayer.validate Registry.lookup
same_layer_refuses = refl

cross_layer_accepts : CrossLayer.validate true kernel (some call_seven) ≡ (ok, some (resolved 7 2))
unfolding CrossLayer.validate Registry.lookup Dispatch.lookup find_entry Capability.check
    Capability.check_slot Capability.decode_handle
cross_layer_accepts = refl

elevator_accepts : Elevator.policy true kernel (some call_two) ≡ (ok, some (resolved 2 1))
unfolding Elevator.policy Registry.lookup Dispatch.lookup find_entry Capability.check
    Capability.check_slot Capability.decode_handle
elevator_accepts = refl

gate_runs : same_layer_gate rude kernel call_two ≡ (error, kernel)
unfolding same_layer_gate mediate enter run_target SameLayer.validate Registry.lookup
    Dispatch.lookup find_entry Capability.check Capability.check_slot Capability.decode_handle
gate_runs = refl

gates_mediate_example :
    Mediates rude kernel
      (SameLayer.validate true kernel call_two)
      (same_layer_gate rude kernel call_two)
    × Mediates rude kernel
        (CrossLayer.validate true kernel (some call_seven))
        (cross_layer_gate rude kernel (some call_seven))
    × Mediates rude kernel
        (Elevator.policy true kernel (some call_seven))
        (elevator_gate rude kernel (some call_seven))
gates_mediate_example = gates_mediate rude kernel call_two (some call_seven)

same_layer_iff_example : (SameLayer.validate true kernel call_two ≡ (ok, some (resolved 2 1))) ↔ (
    IsAuthorized kernel call_two op_call (resolved 2 1)
    × ((resolved 2 1).caller.layer ≡ (resolved 2 1).target.layer))
same_layer_iff_example = same_layer_iff kernel call_two (resolved 2 1)

cross_layer_iff_example :
    (CrossLayer.validate true kernel (some call_seven) ≡ (ok, some (resolved 7 2))) ↔ (
      IsAuthorized kernel call_seven op_call (resolved 7 2)
      × ((resolved 7 2).caller.layer ≢ (resolved 7 2).target.layer)
      × ((resolved 7 2).entry.entry ≢ none))
cross_layer_iff_example = cross_layer_iff kernel call_seven (resolved 7 2)

elevator_iff_example : (Elevator.policy true kernel (some call_two) ≡ (ok, some (resolved 2 1))) ↔ (
    IsAuthorized kernel call_two call_and_critical (resolved 2 1)
    × ((resolved 2 1).entry.entry ≢ none))
elevator_iff_example = elevator_iff kernel call_two (resolved 2 1)

authorized : IsAuthorized kernel call_two op_call (resolved 2 1)
authorized = (same_layer_iff_example.0 same_layer_accepts).0

elevator_is_stricter_example :
    (SameLayer.validate true kernel call_two ≡ (ok, some (resolved 2 1)))
    ⊎ (CrossLayer.validate true kernel (some call_two) ≡ (ok, some (resolved 2 1)))
elevator_is_stricter_example = elevator_is_stricter kernel call_two (resolved 2 1) elevator_accepts
