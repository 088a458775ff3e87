-- ===== src/Tests/Registry.antt =====
-- kernel/main/kernel.c and kernel/main/dispatch.c at a registry with one active service, number 2.
use lettuce_os.Base.{
  ℕ, Option, ◌%◌, ◌≤◌, ◌<◌, ◌≡◌, ◌≢◌, ◌↔◌, refl, true, false, ◌&&◌, none, some, ◌==◌, if◌then◌else◌,
  fill,
}
use lettuce_os.Kernel.Registry
use lettuce_os.Kernel.Registry.{
  Descriptor, zero_descriptor, zero_dispatch, service_table_size, layer_l4, init, cleared,
  find_entry,
}
use lettuce_os.Kernel.Registry.Valid.{IsValid, init-IsValid, register-IsValid, services_refine}
use lettuce_os.Kernel.Dispatch
use lettuce_os.Kernel.Dispatch.{write_operation}
use lettuce_os.Kernel.Dispatch.Laws.{operations_refine}

abbrev blank : Registry.Registry
blank i = record { descriptor = zero_descriptor; operations = λ o. zero_dispatch }

abbrev service_two : Descriptor
service_two = record { id = 2; layer = 1; domain = 2; flags = 1 }

abbrev service_three : Descriptor
service_three = record { id = 3; layer = 2; domain = 3; flags = 1 }

abbrev two : Registry.Registry
two = (Registry.register (init blank) service_two).1

two-IsValid : IsValid two
two-IsValid = register-IsValid (init blank) service_two (init-IsValid blank).0

found : Registry.lookup two 2 ≡ some service_two
unfolding Registry.lookup Registry.register init cleared fill
found = refl

refused_twice : (Registry.register two service_two).0 ≡ false
unfolding Registry.register init cleared fill
refused_twice = refl

operation_found :
    Dispatch.lookup (Dispatch.register two 2 3 (some 100)).1 2 3
    ≡ some (record { entry = some 100; active = true })
unfolding Dispatch.lookup Dispatch.register write_operation find_entry Registry.register init
    cleared fill
operation_found = refl

services_refine_example :
    let (done, t') = Registry.register two service_three in
    let (gone, u) = Registry.unregister two 2 in
    ((done ≡ true) ↔ (
      (service_three.id ≢ 0)
      × (service_three.id < service_table_size)
      × (service_three.layer ≤ layer_l4)
      × (Registry.lookup two service_three.id ≡ none)))
    × ((i : ℕ)
        → Registry.lookup t' i
          ≡ (if done && (i == service_three.id) then some service_three else Registry.lookup two i))
    × ((gone ≡ true) ↔ (Registry.lookup two 2 ≢ none))
    × ((i : ℕ) → Registry.lookup u i ≡ (if gone && (i == 2) then none else Registry.lookup two i))
services_refine_example = services_refine two service_three 2 two-IsValid

abbrev draw : ℕ
draw = 3

abbrev some_code : Option ℕ
some_code = some 100

operations_refine_example :
    let (done, t') = Dispatch.register two 2 3 (some 100) in
    let (gone, u) = Dispatch.unregister two 2 3 in
    ((done ≡ true) ↔ (
      (draw ≢ 0)
      × (draw < 64)
      × (some_code ≢ none)
      × (Dispatch.lookup two 2 3 ≡ none)
      × ((d : Descriptor) × (Registry.lookup two 2 ≡ some d) × (d.flags % 2 ≡ 1))))
    × ((gone ≡ true) ↔ (Dispatch.lookup two 2 3 ≢ none))
    × (Dispatch.lookup t' 2 3 ≡ (
        if done && ((2 == 2) && (3 == 3))
        then some (record { entry = some 100; active = true })
        else Dispatch.lookup two 2 3))
    × (Dispatch.lookup u 2 3
        ≡ (if gone && ((2 == 2) && (3 == 3)) then none else Dispatch.lookup two 2 3))
operations_refine_example = operations_refine two 2 3 (some 100) 2 3
