-- ===== src/Capability/Grants.antt =====
-- kernel/main/capability.c against an abstract table: a partial map from handles to grants.
use lettuce_os.Base.{
  ℕ, ◌≡◌, ◌≢◌, ◌↔◌, true, false, not, ◌||◌, Option, none, some, arith, bit_and, ◌==◌, ◌/=◌,
  if◌then◌else◌,
}
use lettuce_os.Abi.{op_none}
use lettuce_os.Capability.{Caps, Entry, check, check_slot, decode_handle}

-- What a capability lets its owner do
pub record Grant : Type 0 where
  pub owner : ℕ
  pub target : ℕ
  pub operation : ℕ
  pub resource : ℕ
  pub permissions : ℕ

abbrev pub grant_in : Entry → Grant
grant_in e = record {
  owner = e.owner;
  target = e.target;
  operation = e.operation;
  resource = e.resource;
  permissions = e.permissions;
}

unfoldable pub grant_at : Caps → Option (ℕ × ℕ) → Option Grant
grant_at s none = none
grant_at s (some (slot, generation)) =
    let e = s.table slot in
    if not e.active || e.generation /= generation then none else some (grant_in e)

-- The grant that a handle stands for, if it stands for one
unfoldable pub grant_of : Caps → ℕ → Option Grant
unfolding grant_at
grant_of s handle = grant_at s (decode_handle handle)

-- The abstract test: the caller owns the grant and asks for what it allows.
pub record Allows (g : Grant) (caller target operation permission resource : ℕ) : Type 0 where
  pub caller_set : caller ≢ 0
  pub owner_eq : g.owner ≡ caller
  pub target_eq : g.target ≡ target
  pub operation_eq : g.operation ≡ operation
  pub resource_eq : g.resource ≡ resource
  pub permitted : bit_and g.permissions permission ≡ permission

module _ (s : Caps) (caller handle target operation permission resource : ℕ) where
  check_slot-Allows :
      (slot g : ℕ)
      → permission ≢ 0
      → check_slot s caller (some (slot, g)) target operation permission resource ≡ true
      → (grant_at s (some (slot, g)) ≡ some (grant_in (s.table slot)))
        × Allows (grant_in (s.table slot)) caller target operation permission resource
  unfolding check_slot grant_at
  check_slot-Allows slot g p h = (ground arith, ground arith)

  Allows-check_slot :
      (slot g : ℕ) (grant : Grant)
      → grant_at s (some (slot, g)) ≡ some grant
      → Allows grant caller target operation permission resource
      → check_slot s caller (some (slot, g)) target operation permission resource ≡ true
  unfolding check_slot grant_at
  Allows-check_slot slot g grant e a = ground arith

  check_slot_iff :
      (d : Option (ℕ × ℕ))
      → ((if permission == op_none
            then false
            else check_slot s caller d target operation permission resource)
          ≡ true)
        ↔ ((permission ≢ 0)
            × ((g : Grant) × (grant_at s d ≡ some g)
                × Allows g caller target operation permission resource))
  check_slot_iff none =
      (λ h. absurd (unfold check_slot in ground arith), λ (p, (g, e, a)). unfold grant_at in cc e)
  check_slot_iff (some (slot, g)) = (
    λ h.
        let p : permission ≢ 0 = ground arith in
        let a = check_slot-Allows slot g p (ground arith) in
        (p, (grant_in (s.table slot), a.0, a.1)),
    λ (p, (grant, e, a)). ground (arith, Allows-check_slot slot g grant e a),
  )

  -- `lettuce_capability_check` says yes exactly when the request names a permission, and the handle
  -- stands for a grant that allows it.
  pub check_iff : (check s caller handle target operation permission resource ≡ true) ↔ (
      (permission ≢ 0)
      × ((g : Grant) × (grant_of s handle ≡ some g)
          × Allows g caller target operation permission resource))
  unfolding check grant_of
  check_iff = check_slot_iff (decode_handle handle)
