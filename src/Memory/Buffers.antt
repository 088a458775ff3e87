-- ===== src/Memory/Buffers.antt =====
-- memory/shared/buffer.c: 16 shared buffers. `caller` is what `current_service_id()` returns, and
-- the capability table is that of kernel/main/capability.c.
pub mod Laws
pub mod Access
use lettuce_os.Base.{
  ℕ, zero, suc, ◌+◌, ◌-◌, ◌*◌, ◌/◌, ◌%◌, ◌^◌, Bool, true, false, ◌||◌, not, Option, none, some,
  Table, update, fill, ltb, leb, ◌==◌, ◌/=◌, if◌then◌else◌,
}
use lettuce_os.Abi.{
  Status, ok, invalid_argument, not_found, denied, unavailable, capability_denied,
  service_id_invalid, resource_id_invalid, op_read, op_write,
}
use lettuce_os.Capability
use lettuce_os.Capability.{Caps}

abbrev pub buffer_count : ℕ
buffer_count = 16

abbrev pub buffer_size : ℕ
buffer_size = 4096

abbrev pub read_operation : ℕ
read_operation = 256

abbrev pub write_operation : ℕ
write_operation = 257

-- `SharedBuffer`, without its padding
pub record SharedBuffer : Type 0 where
  pub size : ℕ
  pub resource : ℕ
  pub read_capability : ℕ
  pub write_capability : ℕ
  pub owner : ℕ
  pub generation : ℕ
  pub active : Bool
  pub payload : Table ℕ

abbrev pub Buffers : Type 0
Buffers = Table SharedBuffer

-- `gen << 16 | (i + 1)`: a slot is below 16, so the halves do not overlap.
unfoldable pub make_handle : ℕ → ℕ → ℕ
make_handle slot generation = generation * 2 ^ 16 + (slot + 1)

-- The slot and the generation of a handle
unfoldable pub decode_handle : ℕ → Option (ℕ × ℕ)
decode_handle handle =
    let slot = handle % 2 ^ 16 - 1 in
    if handle == 0 || handle % 2 ^ 16 == 0
    then none
    else if ltb slot buffer_count
    then some (slot, handle / 2 ^ 16)
    else none

abbrev pub non_zero : ℕ → ℕ
non_zero g = if g == 0 then 1 else g

-- The payload with every byte 0
unfoldable pub zeroed : Table ℕ → Table ℕ
zeroed payload = fill buffer_size (λ b x. 0) payload

-- `(SharedBuffer){.generation = generation}`
abbrev pub empty_buffer : SharedBuffer → SharedBuffer
empty_buffer b = record {
  size = 0;
  resource = 0;
  read_capability = 0;
  write_capability = 0;
  owner = 0;
  generation = non_zero b.generation;
  active = false;
  payload = zeroed b.payload;
}

unfoldable pub init : Buffers → Buffers
init t = fill buffer_count (λ i b. empty_buffer b) t

-- The loop of `create`: the first inactive buffer of the n from i on
unfoldable pub find_inactive : Buffers → ℕ → ℕ → Option ℕ
find_inactive t zero i = none
find_inactive t (suc n) i =
    let rest = find_inactive t n (i + 1) in if (t i).active then rest else some i

-- What `create` writes into a buffer
abbrev pub new_buffer : SharedBuffer → ℕ → ℕ → ℕ → ℕ → ℕ → SharedBuffer
new_buffer b owner resource size read_capability write_capability = record {
  size = size;
  resource = resource;
  read_capability = read_capability;
  write_capability = write_capability;
  owner = owner;
  generation = non_zero b.generation;
  active = true;
  payload = zeroed b.payload;
}

-- The arguments that `create` refuses; the last says whether `handle` is not NULL.
abbrev pub is_refused : ℕ → ℕ → ℕ → Bool → Bool
is_refused owner resource size given =
    (owner == service_id_invalid || resource == resource_id_invalid)
    || (size == 0 || (ltb buffer_size size || not given))

unfoldable pub create_at : Buffers → ℕ → ℕ → ℕ → ℕ → ℕ → Option ℕ → Status × Option ℕ × Buffers
create_at t owner resource size read_capability write_capability none = (unavailable, none, t)
create_at t owner resource size read_capability write_capability (some i) = (
  ok,
  some (make_handle i (non_zero (t i).generation)),
  update t i (new_buffer (t i) owner resource size read_capability write_capability),
)

-- `lettuce_shared_buffer_create`: the status, what is written through `handle`, and the buffers
unfoldable pub create : Buffers → ℕ → ℕ → ℕ → ℕ → ℕ → ℕ → Bool → Status × Option ℕ × Buffers
create t caller owner resource size read_capability write_capability given =
    if is_refused owner resource size given
    then (invalid_argument, none, t)
    else if caller /= owner
    then (denied, none, t)
    else create_at t owner resource size read_capability write_capability
        (find_inactive t buffer_count 0)

abbrev pub operation_of : Bool → ℕ
operation_of write = if write then write_operation else read_operation

abbrev pub permission_of : Bool → ℕ
permission_of write = if write then op_write else op_read

abbrev pub capability_of : SharedBuffer → Bool → ℕ
capability_of b write = if write then b.write_capability else b.read_capability

unfoldable pub access_slot :
    Buffers → Caps → ℕ → ℕ → Bool → Option (ℕ × ℕ) → Status × Option (ℕ × ℕ)
access_slot t caps caller capability write none = (invalid_argument, none)
access_slot t caps caller capability write (some (slot, generation)) =
    let b = t slot in
    if not b.active || b.generation /= generation
    then (not_found, none)
    else if capability /= capability_of b write
        || not (
            Capability.check caps caller capability b.owner (operation_of write)
              (permission_of write) b.resource)
    then (capability_denied, none)
    else (ok, some (slot, b.size))

-- `lettuce_shared_buffer_access`: the status, and the slot whose payload is pointed to, with the
-- size. `given` says whether neither `data` nor `size` is NULL.
unfoldable pub access : Buffers → Caps → ℕ → ℕ → ℕ → Bool → Bool → Status × Option (ℕ × ℕ)
access t caps caller handle capability write given =
    if not given
    then (invalid_argument, none)
    else access_slot t caps caller capability write (decode_handle handle)

-- `(uint16_t)(generation + 1u)`, and 1 in place of 0
unfoldable pub next_generation : ℕ → ℕ
next_generation g = non_zero ((g + 1) % 2 ^ 16)

-- What `revoke` leaves in a buffer
abbrev pub retired : SharedBuffer → SharedBuffer
retired b = record b {
  active = false;
  generation = next_generation b.generation;
  payload = zeroed b.payload;
}

unfoldable pub revoke_slot : Buffers → ℕ → Option (ℕ × ℕ) → Status × Buffers
revoke_slot t caller none = (invalid_argument, t)
revoke_slot t caller (some (slot, generation)) =
    let b = t slot in
    if not b.active || b.generation /= generation
    then (not_found, t)
    else if caller /= b.owner
    then (denied, t)
    else (ok, update t slot (retired b))

-- `lettuce_shared_buffer_revoke`
unfoldable pub revoke : Buffers → ℕ → ℕ → Status × Buffers
revoke t caller handle = revoke_slot t caller (decode_handle handle)
