-- ===== src/Ipc/CrossLayer.antt =====
-- ipc/cross_layer/call.c, its validation
use lettuce_os.Base.{Bool, not, Option, none, some, ◌==◌, if◌then◌else◌}
use lettuce_os.Abi.{
  ok, invalid_argument, invalid_service, inactive_service, invalid_state, invalid_operation,
  invalid_resource, capability_denied, invalid_target_entry, operation_id_invalid,
  resource_id_invalid, op_call,
}
use lettuce_os.Kernel.Registry
use lettuce_os.Kernel.Registry.{Descriptor, DispatchEntry, is_flagged_active}
use lettuce_os.Kernel.Dispatch
use lettuce_os.Ipc.State.{Kernel, Message, Validation, refuse, check_capability}

-- `entry == NULL || entry->entry == NULL`, or the three pointers are written.
unfoldable pub resolve : Descriptor → Descriptor → Option DispatchEntry → Validation
resolve caller target none = refuse invalid_target_entry
resolve caller target (some entry) = elim entry.entry [
  | none ↦ refuse invalid_target_entry
  | some code ↦ (ok, some (record { caller = caller; target = target; entry = entry }))
]

with_services : Kernel → Message → Descriptor → Descriptor → Validation
unfolding resolve
with_services k m caller target =
    if not (is_flagged_active target.flags)
    then refuse inactive_service
    else if caller.layer == target.layer
    then refuse invalid_state
    else if m.operation_id == operation_id_invalid
    then refuse invalid_operation
    else if m.resource_id == resource_id_invalid
    then refuse invalid_resource
    else if not (check_capability k m op_call)
    then refuse capability_denied
    else resolve caller target (Dispatch.lookup k.services m.target_service_id m.operation_id)

with_caller : Kernel → Message → Descriptor → Validation
unfolding with_services
with_caller k m caller =
    if not (is_flagged_active caller.flags)
    then refuse inactive_service
    else elim (Registry.lookup k.services m.target_service_id) [
      | none ↦ refuse invalid_service
      | some target ↦ with_services k m caller target
    ]

-- `lettuce_cross_layer_validate`; `none` is a NULL message, and the first argument says whether
-- `resolution` is not NULL.
unfoldable pub validate : Bool → Kernel → Option Message → Validation
unfolding with_caller
validate given k none = refuse invalid_argument
validate given k (some m) =
    if not given
    then refuse invalid_argument
    else elim (Registry.lookup k.services k.context.service_id) [
      | none ↦ refuse invalid_service
      | some caller ↦ with_caller k m caller
    ]
