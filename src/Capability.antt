-- ===== src/Capability.antt =====
-- kernel/main/capability.c: the supervisor's capability table.
pub mod Handle
pub mod Valid
pub mod Keeps
pub mod Grants
pub mod Refine
pub mod Stale
pub mod Provenance
use lettuce_os.Base.{
  ℕ, ◌+◌, ◌-◌, ◌*◌, ◌/◌, ◌%◌, ◌^◌, bit_and, Bool, true, false, ◌&&◌, ◌||◌, not, Option, none, some,
  Table, update, fill, ltb, leb, ◌==◌, ◌/=◌, if◌then◌else◌,
}
use lettuce_os.Abi.{service_id_invalid, resource_id_invalid, operation_id_invalid, op_none}

abbrev pub table_size : ℕ
table_size = 4096

abbrev pub capability_invalid : ℕ
capability_invalid = 0

-- The six bits that a capability may carry, and the other bits of a 32-bit word.
abbrev pub known_permissions : ℕ
known_permissions = 63

abbrev pub unknown_permissions : ℕ
unknown_permissions = 2 ^ 32 - 1 - known_permissions

-- `LettuceCapabilityEntry`, without its padding
pub record Entry : Type 0 where
  pub generation : ℕ
  pub active : Bool
  pub owner : ℕ
  pub target : ℕ
  pub operation : ℕ
  pub resource : ℕ
  pub permissions : ℕ

-- The three static variables of the file
pub record Caps : Type 0 where
  pub table : Table Entry
  pub free_slots : Table ℕ
  pub free_count : ℕ

-- `generation << 16 | (slot + 1)`: the two halves do not overlap, since a slot is below 4096.
unfoldable pub make_handle : ℕ → ℕ → ℕ
make_handle slot generation = generation * 2 ^ 16 + (slot + 1)

-- The slot and the generation of a handle
unfoldable pub decode_handle : ℕ → Option (ℕ × ℕ)
decode_handle handle =
    let encoded_slot = handle % 2 ^ 16 in
    if handle == capability_invalid
    then none
    else if encoded_slot == 0
    then none
    else if leb table_size (encoded_slot - 1)
    then none
    else some (encoded_slot - 1, handle / 2 ^ 16)

-- What `init` writes into every slot
abbrev pub init_entry : Entry
init_entry = record {
  generation = 1;
  active = false;
  owner = service_id_invalid;
  target = service_id_invalid;
  operation = operation_id_invalid;
  resource = resource_id_invalid;
  permissions = op_none;
}

unfoldable pub init : Caps → Caps
init s = record {
  table = fill table_size (λ i e. init_entry) s.table;
  free_slots = fill table_size (λ i x. table_size - 1 - i) s.free_slots;
  free_count = table_size;
}

-- The arguments that `create` refuses before it looks at the free list
unfoldable pub is_refused : ℕ → ℕ → ℕ → ℕ → ℕ → Bool
is_refused owner target operation permissions resource =
    (owner == service_id_invalid
      || target == service_id_invalid
      || operation == operation_id_invalid
      || resource == resource_id_invalid)
    || (permissions == op_none || bit_and permissions unknown_permissions /= 0)

-- The entry that `create` leaves in a slot
abbrev pub granted : Entry → ℕ → ℕ → ℕ → ℕ → ℕ → Entry
granted e owner target operation permissions resource = record e {
  owner = owner;
  target = target;
  operation = operation;
  resource = resource;
  permissions = permissions;
  active = true;
}

unfoldable pub create : Caps → ℕ → ℕ → ℕ → ℕ → ℕ → ℕ × Caps
unfolding is_refused make_handle
create s owner target operation permissions resource =
    let slot = s.free_slots (s.free_count - 1) in
    let entry = s.table slot in
    if is_refused owner target operation permissions resource
    then (capability_invalid, s)
    else if s.free_count == 0
    then (capability_invalid, s)
    else (
      make_handle slot entry.generation,
      record s {
        table = update s.table slot (granted entry owner target operation permissions resource);
        free_count = s.free_count - 1;
      },
    )

-- `entry->generation += 1u; if (entry->generation == 0u) entry->generation = 1u;`
unfoldable pub next_generation : ℕ → ℕ
next_generation g = let g' = (g + 1) % 2 ^ 16 in if g' == 0 then 1 else g'

unfoldable pub revoke_slot : Caps → Option (ℕ × ℕ) → Bool × Caps
unfolding next_generation
revoke_slot s none = (false, s)
revoke_slot s (some (slot, generation)) =
    let entry = s.table slot in
    if not entry.active || entry.generation /= generation then (false, s) else (
      true,
      record {
        table =
            update s.table slot
              (record init_entry { generation = next_generation entry.generation });
        free_slots = update s.free_slots s.free_count slot;
        free_count = s.free_count + 1;
      },
    )

unfoldable pub revoke : Caps → ℕ → Bool × Caps
unfolding revoke_slot decode_handle
revoke s handle = revoke_slot s (decode_handle handle)

unfoldable pub check_slot : Caps → ℕ → Option (ℕ × ℕ) → ℕ → ℕ → ℕ → ℕ → Bool
check_slot s caller none target operation permission resource = false
check_slot s caller (some (slot, generation)) target operation permission resource =
    let entry = s.table slot in
    if not entry.active || entry.generation /= generation
    then false
    else if caller == service_id_invalid
    then false
    else if entry.owner /= caller
    then false
    else if entry.target /= target
    then false
    else if entry.operation /= operation
    then false
    else if resource /= entry.resource
    then false
    else if bit_and entry.permissions permission /= permission
    then false
    else true

-- `caller` is what `current_service_id()` returns.
unfoldable pub check : Caps → ℕ → ℕ → ℕ → ℕ → ℕ → ℕ → Bool
unfolding check_slot decode_handle
check s caller handle target operation permission resource =
    if permission == op_none
    then false
    else check_slot s caller (decode_handle handle) target operation permission resource
