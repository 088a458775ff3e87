-- ===== src/Ipc/SameLayer.antt =====
-- ipc/same_layer/validate.c. The request's four arguments stand in a message record.
use lettuce_os.Base.{Bool, not, none, some, ◌==◌, ◌/=◌, if◌then◌else◌}
use lettuce_os.Abi.{
  ok, invalid_argument, invalid_service, inactive_service, different_layer, invalid_operation,
  invalid_resource, capability_denied, service_id_invalid, operation_id_invalid,
  resource_id_invalid, op_call,
}
use lettuce_os.Capability.{capability_invalid}
use lettuce_os.Kernel.Registry
use lettuce_os.Kernel.Registry.{Descriptor, is_flagged_active}
use lettuce_os.Kernel.Dispatch
use lettuce_os.Ipc.State.{Kernel, Message, Validation, refuse, check_capability}

resolve : Kernel → Message → Descriptor → Descriptor → Validation
resolve k m caller target = elim (Dispatch.lookup k.services m.target_service_id m.operation_id) [
  | none ↦ refuse invalid_operation
  | some entry ↦ (ok, some (record { caller = caller; target = target; entry = entry }))
]

with_services : Kernel → Message → Descriptor → Descriptor → Validation
unfolding resolve
with_services k m caller target =
    if not (is_flagged_active target.flags)
    then refuse inactive_service
    else if caller.layer /= target.layer
    then refuse different_layer
    else if m.operation_id == operation_id_invalid
    then refuse invalid_operation
    else if m.resource_id == resource_id_invalid
    then refuse invalid_resource
    else if m.capability_handle == capability_invalid
    then refuse capability_denied
    else if not (check_capability k m op_call)
    then refuse capability_denied
    else resolve k m caller target

with_caller : Kernel → Message → Descriptor → Validation
unfolding with_services
with_caller k m caller =
    if not (is_flagged_active caller.flags)
    then refuse inactive_service
    else if m.target_service_id == service_id_invalid
    then refuse invalid_service
    else elim (Registry.lookup k.services m.target_service_id) [
      | none ↦ refuse invalid_service
      | some target ↦ with_services k m caller target
    ]

-- `lettuce_same_layer_validate`; the first argument says whether `resolution` is not NULL.
unfoldable pub validate : Bool → Kernel → Message → Validation
unfolding with_caller
validate given k m =
    let trusted_caller = k.context.service_id in
    if not given
    then refuse invalid_argument
    else if trusted_caller == service_id_invalid
    then refuse invalid_service
    else elim (Registry.lookup k.services trusted_caller) [
      | none ↦ refuse invalid_service
      | some caller ↦ with_caller k m caller
    ]
