-- ===== src/Ipc/Authority.antt =====
-- ipc/same_layer/validate.c, ipc/cross_layer/call.c and ipc/elevator/policy.c: exactly which
-- requests the three validations let through.
use lettuce_os.Base.{
  ℕ, ◌≡◌, ◌≢◌, ◌↔◌, ◌⊎◌, inl, inr, true, none, some, arith, ◌==◌, Bool-cases, ==→eq, ==→ne,
  bit_and-critical,
}
use lettuce_os.Abi.{ok, op_call}
use lettuce_os.Capability
use lettuce_os.Capability.Grants.{Grant, Allows, grant_of, check_iff}
use lettuce_os.Kernel.Registry
use lettuce_os.Kernel.Registry.{Descriptor, DispatchEntry, is_flagged_active}
use lettuce_os.Kernel.Dispatch
use lettuce_os.Ipc.State.{Kernel, Message, Resolution, check_capability}
use lettuce_os.Ipc.SameLayer
use lettuce_os.Ipc.CrossLayer
use lettuce_os.Ipc.Elevator
use lettuce_os.Ipc.Elevator.{call_and_critical}

-- The running service may make the request m, with the given permissions: caller and target are
-- registered and active, the operation and the resource are named, the capability handle stands for
-- a grant to the running service that allows the request, and the operation is registered.
pub record IsAuthorized (k : Kernel) (m : Message) (permission : ℕ) (r : Resolution) : Type 0 where
  pub caller_found : Registry.lookup k.services k.context.service_id ≡ some r.caller
  pub caller_active : is_flagged_active r.caller.flags ≡ true
  pub target_found : Registry.lookup k.services m.target_service_id ≡ some r.target
  pub target_active : is_flagged_active r.target.flags ≡ true
  pub operation_set : m.operation_id ≢ 0
  pub resource_set : m.resource_id ≢ 0
  pub allowed : check_capability k m permission ≡ true
  pub entry_found : Dispatch.lookup k.services m.target_service_id m.operation_id ≡ some r.entry

module _ (k : Kernel) (m : Message) (r : Resolution) where
  same_layer_sound :
      SameLayer.validate true k m ≡ (ok, some r)
      → IsAuthorized k m op_call r × (r.caller.layer ≡ r.target.layer)
  unfolding SameLayer.validate
  same_layer_sound h = ground arith

  cross_layer_sound :
      CrossLayer.validate true k (some m) ≡ (ok, some r)
      → IsAuthorized k m op_call r × (r.caller.layer ≢ r.target.layer) × (r.entry.entry ≢ none)
  unfolding CrossLayer.validate
  cross_layer_sound h = ground arith

  elevator_sound :
      Elevator.policy true k (some m) ≡ (ok, some r)
      → IsAuthorized k m call_and_critical r × (r.entry.entry ≢ none)
  unfolding Elevator.policy
  elevator_sound h = ground arith

  lookup-ne_zero : (i : ℕ) {d : Descriptor} → Registry.lookup k.services i ≡ some d → i ≢ 0
  unfolding Registry.lookup
  lookup-ne_zero i h = ground arith

  check-ne_zero : check_capability k m op_call ≡ true → m.capability_handle ≢ 0
  unfolding Capability.check
  check-ne_zero h = ground arith

  -- The same-layer validation accepts exactly the authorized requests with the permission CALL
  -- between services of one layer, and resolves them to the caller, target and entry found.
  pub same_layer_iff :
      (SameLayer.validate true k m ≡ (ok, some r))
      ↔ (IsAuthorized k m op_call r × (r.caller.layer ≡ r.target.layer))
  unfolding SameLayer.validate
  same_layer_iff = (
    same_layer_sound,
    λ (a, same). ground (
      arith,
      a.caller_found,
      lookup-ne_zero k.context.service_id a.caller_found,
      lookup-ne_zero m.target_service_id a.target_found,
      check-ne_zero a.allowed,
    ),
  )

  -- The cross-layer validation accepts exactly the authorized requests with the permission CALL
  -- between services of two different layers whose operation has an entry point.
  pub cross_layer_iff :
      (CrossLayer.validate true k (some m) ≡ (ok, some r))
      ↔ (IsAuthorized k m op_call r × (r.caller.layer ≢ r.target.layer) × (r.entry.entry ≢ none))
  unfolding CrossLayer.validate
  cross_layer_iff = (cross_layer_sound, λ (a, other, e). ground arith)

  -- The elevator policy accepts exactly the authorized requests with both CALL and CRITICAL whose
  -- operation has an entry point, whatever the layers.
  pub elevator_iff :
      (Elevator.policy true k (some m) ≡ (ok, some r))
      ↔ (IsAuthorized k m call_and_critical r × (r.entry.entry ≢ none))
  unfolding Elevator.policy
  elevator_iff = (elevator_sound, λ (a, e). ground arith)

  -- An authorized request carries a handle that stands for a grant to the running service, for that
  -- target, operation and resource, with the permissions asked for.
  pub IsAuthorized-Grant :
      (permission : ℕ)
      → IsAuthorized k m permission r
      → (g : Grant) × (grant_of k.caps m.capability_handle ≡ some g)
        × Allows g k.context.service_id m.target_service_id m.operation_id permission m.resource_id
  IsAuthorized-Grant permission a =
      ((check_iff k.caps k.context.service_id m.capability_handle m.target_service_id m.operation_id
          permission m.resource_id).0
        a.allowed).1

  critical_permits_call :
      check_capability k m call_and_critical ≡ true → check_capability k m op_call ≡ true
  critical_permits_call h =
      let caller = k.context.service_id in
      let handle = m.capability_handle in
      let (t, o, res) : ℕ × ℕ × ℕ = (m.target_service_id, m.operation_id, m.resource_id) in
      let (g, found, a) = ((check_iff k.caps caller handle t o call_and_critical res).0 h).1 in
      (check_iff k.caps caller handle t o op_call res).1
        (omega arith, (g, found, ground (arith, bit_and-critical g.permissions)))

  -- The elevator bypasses no check: what its policy accepts, the cross-layer validation accepts too,
  -- or, between services of one layer, the same-layer validation, with the same resolution.
  pub elevator_is_stricter :
      Elevator.policy true k (some m) ≡ (ok, some r)
      → (SameLayer.validate true k m ≡ (ok, some r))
        ⊎ (CrossLayer.validate true k (some m) ≡ (ok, some r))
  elevator_is_stricter h =
      let (a, e) = elevator_sound h in
      let a' : IsAuthorized k m op_call r = ground (arith, a, critical_permits_call a.allowed) in
      elim (Bool-cases (r.caller.layer == r.target.layer)) [
        | inl same ↦ inl (same_layer_iff.1 (a', ==→eq _ _ same))
        | inr other ↦ inr (cross_layer_iff.1 (a', ==→ne _ _ other, e))
      ]
