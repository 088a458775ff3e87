-- ===== src/Kernel/Registry.antt =====
-- kernel/main/kernel.c: the service registry, a table indexed by service identifier.
pub mod Valid
use lettuce_os.Base.{
  ℕ, ◌%◌, Bool, true, false, ◌&&◌, ◌||◌, Option, none, some, Table, update, fill, ltb, leb, ◌==◌,
  ◌/=◌, if◌then◌else◌,
}
use lettuce_os.Abi.{service_id_invalid}

abbrev pub service_table_size : ℕ
service_table_size = 256

abbrev pub operation_limit : ℕ
operation_limit = 64

abbrev pub layer_l4 : ℕ
layer_l4 = 4

-- `LettuceServiceDescriptor`, without its padding; a layer is its number.
pub record Descriptor : Type 0 where
  pub id : ℕ
  pub layer : ℕ
  pub domain : ℕ
  pub flags : ℕ

-- `LettuceDispatchEntry`: a function pointer, `none` for NULL and else the address of the code
pub record DispatchEntry : Type 0 where
  pub entry : Option ℕ
  pub active : Bool

-- `LettuceServiceRegistryEntry`
pub record RegistryEntry : Type 0 where
  pub descriptor : Descriptor
  pub operations : Table DispatchEntry

abbrev pub Registry : Type 0
Registry = Table RegistryEntry

-- `(LettuceServiceDescriptor){0}`
abbrev pub zero_descriptor : Descriptor
zero_descriptor = record { id = 0; layer = 0; domain = 0; flags = 0 }

-- `(LettuceDispatchEntry){0}`
abbrev pub zero_dispatch : DispatchEntry
zero_dispatch = record { entry = none; active = false }

-- `flags & LETTUCE_SERVICE_FLAG_ACTIVE`, bit 0
abbrev pub is_flagged_active : ℕ → Bool
is_flagged_active flags = flags % 2 /= 0

-- An entry with its descriptor and all its operations zeroed
unfoldable pub cleared : RegistryEntry → RegistryEntry
cleared e = record {
  descriptor = zero_descriptor;
  operations = fill operation_limit (λ i d. zero_dispatch) e.operations;
}

unfoldable pub init : Registry → Registry
unfolding cleared
init t = fill service_table_size (λ i e. cleared e) t

unfoldable pub register : Registry → Descriptor → Bool × Registry
register t d =
    let entry = t d.id in
    if d.id == service_id_invalid || leb service_table_size d.id
    then (false, t)
    else if ltb layer_l4 d.layer
    then (false, t)
    else if entry.descriptor.id /= service_id_invalid
    then (false, t)
    else (true, update t d.id (record entry { descriptor = d }))

unfoldable pub unregister : Registry → ℕ → Bool × Registry
unfolding cleared
unregister t service_id =
    let entry = t service_id in
    if service_id == service_id_invalid || leb service_table_size service_id
    then (false, t)
    else if entry.descriptor.id == service_id_invalid
    then (false, t)
    else (true, update t service_id (cleared entry))

-- A pointer into the table is the entry that it points to.
unfoldable pub find_entry : Registry → ℕ → Option RegistryEntry
find_entry t service_id =
    let entry = t service_id in
    if service_id == service_id_invalid || leb service_table_size service_id
    then none
    else if entry.descriptor.id == service_id
    then some entry
    else none

unfoldable pub lookup : Registry → ℕ → Option Descriptor
lookup t service_id =
    let descriptor = (t service_id).descriptor in
    if service_id == service_id_invalid || leb service_table_size service_id
    then none
    else if descriptor.id == service_id
    then some descriptor
    else none

unfoldable pub is_active : Registry → ℕ → Bool
unfolding lookup
is_active t service_id = elim (lookup t service_id) [
  | none ↦ false
  | some d ↦ is_flagged_active d.flags
]
