-- ===== src/Kernel/Registry/Valid.antt =====
-- kernel/main/kernel.c: the registry's invariant, and the registry as a map.
use lettuce_os.Base.{
  ℕ, ◌≤◌, ◌<◌, ◌≡◌, ◌≢◌, ◌↔◌, true, false, ◌&&◌, none, some, arith, fill_lem, ◌==◌, lt→ltb,
  if◌then◌else◌,
}
use lettuce_os.Kernel.Registry.{
  Registry, Descriptor, RegistryEntry, service_table_size, operation_limit, layer_l4, init,
  register, unregister, lookup, cleared, zero_dispatch,
}

-- A slot is empty, with no operation, or holds the service with the slot's own number, in a layer
-- up to L4. An active operation has a number from 1 to the limit, and an entry point.
pub record IsValid (t : Registry) : Type 0 where
  pub own_slot :
      (i : ℕ) → i < service_table_size → (t i).descriptor.id ≢ 0 → (t i).descriptor.id ≡ i
  pub layer_le : (i : ℕ) → i < service_table_size → (t i).descriptor.layer ≤ layer_l4
  pub owned :
      (i o : ℕ)
      → i < service_table_size
      → o < operation_limit
      → ((t i).operations o).active ≡ true
      → ((t i).descriptor.id ≢ 0) × (o ≢ 0) × (((t i).operations o).entry ≢ none)

cleared-operations :
    (e : RegistryEntry) (o : ℕ) → o < operation_limit → ((cleared e).operations o).active ≡ false
unfolding cleared
cleared-operations e o h =
    ground (arith, fill_lem operation_limit (λ i d. zero_dispatch) e.operations o)

-- `lettuce_service_registry_init` establishes the invariant, with no service registered.
pub init-IsValid :
    (t : Registry) → IsValid (init t) × ((service_id : ℕ) → lookup (init t) service_id ≡ none)
unfolding lookup
init-IsValid t = (valid, λ i. nothing i)
  where
    at : (i : ℕ) → i < service_table_size → init t i ≡ cleared (t i)
    at i h = unfold init in rw (fill_lem service_table_size _ t i, lt→ltb i service_table_size h)

    valid : IsValid (init t)
    valid = record {
      own_slot = λ i h p. unfold cleared in ground (arith, at i h);
      layer_le = λ i h. unfold cleared in ground (arith, at i h);
      owned = λ i o h ho on. ground (arith, at i h, cleared-operations (t i) o ho);
    }

    nothing : (i : ℕ) → lookup (init t) i ≡ none
    nothing i = unfold cleared in ground (arith, at i)

-- `lettuce_service_registry_register` keeps the invariant.
pub register-IsValid : (t : Registry) (d : Descriptor) → IsValid t → IsValid (register t d).1
unfolding register
register-IsValid t d v = record {
  own_slot = λ i h p. ground (arith, v.own_slot i h);
  layer_le = λ i h. ground (arith, v.layer_le i h);
  owned = λ i o h ho on. ground (arith, v.owned i o h ho);
}

-- `lettuce_service_registry_unregister` keeps the invariant.
pub unregister-IsValid : (t : Registry) (i : ℕ) → IsValid t → IsValid (unregister t i).1
unfolding unregister
unregister-IsValid t s v = record {
  own_slot = λ i h p. ground (arith, v.own_slot i h);
  layer_le = λ i h. ground (arith, v.layer_le i h);
  owned = λ i o h ho on. ground (arith, v.owned i o h ho, cleared-operations (t s) o ho);
}

-- A valid registry is a map from identifiers to descriptors. Registering succeeds exactly on a free
-- identifier from 1 to 255 and a layer up to L4, never overwrites, and adds just that descriptor;
-- unregistering succeeds exactly on a registered identifier, and removes just that descriptor.
pub services_refine :
    (t : Registry) (d : Descriptor) (service_id : ℕ)
    → IsValid t
    → let (done, t') = register t d in
      let (gone, u) = unregister t service_id in
      ((done ≡ true) ↔ (
        (d.id ≢ 0) × (d.id < service_table_size) × (d.layer ≤ layer_l4) × (lookup t d.id ≡ none)))
      × ((i : ℕ) → lookup t' i ≡ (if done && (i == d.id) then some d else lookup t i))
      × ((gone ≡ true) ↔ (lookup t service_id ≢ none))
      × ((i : ℕ) → lookup u i ≡ (if gone && (i == service_id) then none else lookup t i))
unfolding register unregister lookup
services_refine t d s v = (
  ground (arith, v.own_slot d.id),
  λ i. ground arith,
  ground (arith, v.own_slot s),
  λ i. ground (arith, v.own_slot s),
)
