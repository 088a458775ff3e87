-- ===== src/Kernel/Dispatch/Laws.antt =====
-- kernel/main/dispatch.c: what registering and unregistering an operation change.
use lettuce_os.Base.{
  ℕ, ◌%◌, ◌<◌, ◌≡◌, ◌≢◌, ◌↔◌, refl, true, ◌&&◌, Option, none, some, arith, ◌==◌, if◌then◌else◌,
}
use lettuce_os.Kernel.Registry
use lettuce_os.Kernel.Registry.{
  Registry, Descriptor, DispatchEntry, service_table_size, operation_limit, is_flagged_active,
}
use lettuce_os.Kernel.Registry.Valid.{IsValid}
use lettuce_os.Kernel.Dispatch.{register, unregister, lookup}

-- `lettuce_dispatch_register` and `lettuce_dispatch_unregister` keep the registry's invariant.
pub dispatch-IsValid :
    (t : Registry) (service_id operation_id : ℕ) (entry : Option ℕ)
    → IsValid t
    → IsValid (register t service_id operation_id entry).1
      × IsValid (unregister t service_id operation_id).1
unfolding register unregister
dispatch-IsValid t s o e v = (
  record {
    own_slot = λ i h p. ground (arith, v.own_slot i h);
    layer_le = λ i h. ground (arith, v.layer_le i h);
    owned = λ i o' h ho on. ground (arith, v.owned i o' h ho);
  },
  record {
    own_slot = λ i h p. ground (arith, v.own_slot i h);
    layer_le = λ i h. ground (arith, v.layer_le i h);
    owned = λ i o' h ho on. ground (arith, v.owned i o' h ho);
  },
)

module _ (t : Registry) (service_id operation_id : ℕ) where
  -- Neither registering nor unregistering an operation changes which services there are.
  pub services-kept :
      (entry : Option ℕ) (i : ℕ)
      → (Registry.lookup (register t service_id operation_id entry).1 i ≡ Registry.lookup t i)
        × (Registry.lookup (unregister t service_id operation_id).1 i ≡ Registry.lookup t i)
  unfolding register unregister Registry.lookup
  services-kept entry i = (ground arith, ground arith)

  register-accepts :
      (code : ℕ) (d : Descriptor)
      → operation_id ≢ 0
      → operation_id < 64
      → Registry.lookup t service_id ≡ some d
      → d.flags % 2 ≡ 1
      → lookup t service_id operation_id ≡ none
      → (register t service_id operation_id (some code)).0 ≡ true
  unfolding register lookup Registry.lookup
  register-accepts code d nz lt found active free = ground (arith, found, active, free)

  register-accepted :
      (entry : Option ℕ)
      → (register t service_id operation_id entry).0 ≡ true
      → (operation_id ≢ 0)
        × (operation_id < 64)
        × (entry ≢ none)
        × (lookup t service_id operation_id ≡ none)
        × ((d : Descriptor) × (Registry.lookup t service_id ≡ some d) × (d.flags % 2 ≡ 1))
  unfolding register lookup Registry.lookup
  register-accepted entry h = (
    λ e. ground (arith, e, h),
    ground (arith, h),
    λ e. ground (arith, e, h),
    ground (arith, h),
    ((t service_id).descriptor, ground (arith, h), ground (arith, h)),
  )

  register_iff :
      (entry : Option ℕ)
      → ((register t service_id operation_id entry).0 ≡ true) ↔ (
          (operation_id ≢ 0)
          × (operation_id < 64)
          × (entry ≢ none)
          × (lookup t service_id operation_id ≡ none)
          × ((d : Descriptor) × (Registry.lookup t service_id ≡ some d) × (d.flags % 2 ≡ 1)))
  register_iff none = (register-accepted none, λ (_, _, code, _, _). absurd (code refl))
  register_iff (some code) = (
    register-accepted (some code),
    λ (nz, lt, _, free, (d, found, active)). register-accepts code d nz lt found active free,
  )

  unregister_iff :
      ((unregister t service_id operation_id).0 ≡ true) ↔ (lookup t service_id operation_id ≢ none)
  unfolding unregister lookup
  unregister_iff = (λ h e. ground (arith, h, e), λ found. ground (arith, found))

  -- Registering succeeds exactly for an operation from 1 to 63 that is not registered, of a service
  -- that is registered with its flag of activity set, with an entry point; unregistering succeeds
  -- exactly for a registered operation. A registered operation is found under its service and number
  -- with the entry point given, an unregistered one is found no more, and each leaves every other
  -- operation as it was.
  pub operations_refine :
      (entry : Option ℕ) (i o : ℕ)
      → let (done, t') = register t service_id operation_id entry in
        let (gone, u) = unregister t service_id operation_id in
        ((done ≡ true) ↔ (
          (operation_id ≢ 0)
          × (operation_id < 64)
          × (entry ≢ none)
          × (lookup t service_id operation_id ≡ none)
          × ((d : Descriptor) × (Registry.lookup t service_id ≡ some d) × (d.flags % 2 ≡ 1))))
        × ((gone ≡ true) ↔ (lookup t service_id operation_id ≢ none))
        × (lookup t' i o ≡ (
            if done && ((i == service_id) && (o == operation_id))
            then some (record { entry = entry; active = true })
            else lookup t i o))
        × (lookup u i o
            ≡ (if gone && ((i == service_id) && (o == operation_id)) then none else lookup t i o))
  unfolding register unregister lookup
  operations_refine entry i o = (register_iff entry, unregister_iff, ground arith, ground arith)
