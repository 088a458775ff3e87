-- ===== src/Kernel/Dispatch.antt =====
-- kernel/main/dispatch.c: entry points by service and operation. A function pointer is an address,
-- `none` for NULL.
pub mod Laws
use lettuce_os.Base.{
  ℕ, Bool, true, false, ◌||◌, not, Option, none, some, update, ltb, leb, ◌==◌, if◌then◌else◌,
}
use lettuce_os.Abi.{service_id_invalid, operation_id_invalid}
use lettuce_os.Kernel.Registry.{
  Registry, RegistryEntry, DispatchEntry, operation_limit, find_entry, is_flagged_active,
  zero_dispatch,
}

abbrev is_null : Option ℕ → Bool
is_null none = true
is_null (some a) = false

-- `dispatch->entry = …; dispatch->active = …;` through the pointer that the registry gave out
unfoldable pub write_operation : Registry → ℕ → ℕ → RegistryEntry → DispatchEntry → Registry
write_operation t service_id operation_id service d =
    update t service_id (record service { operations = update service.operations operation_id d })

unfoldable pub register : Registry → ℕ → ℕ → Option ℕ → Bool × Registry
unfolding write_operation find_entry
register t service_id operation_id entry =
    if (service_id == service_id_invalid || operation_id == operation_id_invalid)
      || (leb operation_limit operation_id || is_null entry)
    then (false, t)
    else elim (find_entry t service_id) [
      | none ↦ (false, t)
      | some service ↦
          if not (is_flagged_active service.descriptor.flags)
          then (false, t)
          else if (service.operations operation_id).active
          then (false, t)
          else (
            true,
            write_operation t service_id operation_id service
                (record { entry = entry; active = true }),
          )
    ]

unfoldable pub unregister : Registry → ℕ → ℕ → Bool × Registry
unfolding write_operation find_entry
unregister t service_id operation_id =
    if operation_id == operation_id_invalid || leb operation_limit operation_id
    then (false, t)
    else elim (find_entry t service_id) [
      | none ↦ (false, t)
      | some service ↦
          if not (service.operations operation_id).active
          then (false, t)
          else (true, write_operation t service_id operation_id service zero_dispatch)
    ]

unfoldable pub lookup : Registry → ℕ → ℕ → Option DispatchEntry
unfolding find_entry
lookup t service_id operation_id =
    if operation_id == operation_id_invalid || leb operation_limit operation_id
    then none
    else elim (find_entry t service_id) [
      | none ↦ none
      | some service ↦
          if not (service.operations operation_id).active
          then none
          else some (service.operations operation_id)
    ]
