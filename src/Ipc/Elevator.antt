-- ===== src/Ipc/Elevator.antt =====
-- ipc/elevator/policy.c
use lettuce_os.Base.{ℕ, ◌+◌, Bool, ◌||◌, not, Option, none, some, ◌==◌, if◌then◌else◌}
use lettuce_os.Abi.{
  invalid_argument, invalid_service, inactive_service, invalid_operation, invalid_resource,
  capability_denied, operation_id_invalid, resource_id_invalid, op_call, op_critical,
}
use lettuce_os.Kernel.Registry
use lettuce_os.Kernel.Registry.{Descriptor, is_flagged_active}
use lettuce_os.Kernel.Dispatch
use lettuce_os.Ipc.State.{Kernel, Message, Validation, refuse, check_capability}
use lettuce_os.Ipc.CrossLayer.{resolve}

-- `LETTUCE_CAP_CALL | LETTUCE_CAP_CRITICAL`
abbrev pub call_and_critical : ℕ
call_and_critical = op_call + op_critical

with_services : Kernel → Message → Descriptor → Descriptor → Validation
unfolding resolve
with_services k m caller target =
    if not (is_flagged_active caller.flags) || not (is_flagged_active target.flags)
    then refuse inactive_service
    else if m.operation_id == operation_id_invalid
    then refuse invalid_operation
    else if m.resource_id == resource_id_invalid
    then refuse invalid_resource
    else if not (check_capability k m call_and_critical)
    then refuse capability_denied
    else resolve caller target (Dispatch.lookup k.services m.target_service_id m.operation_id)

with_caller : Kernel → Message → Descriptor → Option Descriptor → Validation
unfolding with_services
with_caller k m caller none = refuse invalid_service
with_caller k m caller (some target) = with_services k m caller target

-- `lettuce_elevator_policy`; `none` is a NULL message, and the first argument says whether
-- `resolution` is not NULL.
unfoldable pub policy : Bool → Kernel → Option Message → Validation
unfolding with_caller
policy given k none = refuse invalid_argument
policy given k (some m) =
    if not given
    then refuse invalid_argument
    else elim (Registry.lookup k.services k.context.service_id) [
      | none ↦ refuse invalid_service
      | some caller ↦ with_caller k m caller (Registry.lookup k.services m.target_service_id)
    ]
