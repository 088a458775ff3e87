-- ===== src/Capability/Keeps.antt =====
-- Every operation of kernel/main/capability.c keeps the representation invariant.
use lettuce_os.Base.{
  ℕ, ◌-◌, ◌<◌, ◌≡◌, ◌≢◌, refl, ◌⊎◌, inl, inr, Bool, true, false, some, arith, Bool-cases,
  Option-cases, ◌==◌, ==→eq, ==→ne,
}
use lettuce_os.Capability.{
  Caps, Entry, create, revoke, revoke_slot, is_refused, granted, make_handle, decode_handle,
  next_generation, table_size,
}
use lettuce_os.Capability.Handle.{make_handle-decode_handle, next_generation_lem}
use lettuce_os.Capability.Valid.{
  IsValid, IsGranted, taken, taken-IsValid, given_back, given_back-IsValid,
}

module _ (s : Caps) (owner target operation permissions resource : ℕ) where
  accepted-IsGranted :
      is_refused owner target operation permissions resource ≡ false
      → IsGranted (
          granted
            (s.table (s.free_slots (s.free_count - 1)))
            owner
            target
            operation
            permissions
            resource)
  unfolding is_refused
  accepted-IsGranted h = ground arith

  -- The entry that a successful `create` writes
  abbrev pub new_entry : Entry
  new_entry =
      granted (s.table (s.free_slots (s.free_count - 1))) owner target operation permissions
        resource

  pub create-refused :
      (is_refused owner target operation permissions resource ≡ true) ⊎ (s.free_count ≡ 0)
      → create s owner target operation permissions resource ≡ (0, s)
  unfolding create
  create-refused h = ground arith

  pub create-accepted :
      is_refused owner target operation permissions resource ≡ false
      → s.free_count ≢ 0
      → create s owner target operation permissions resource
        ≡ (make_handle (s.free_slots (s.free_count - 1)) new_entry.generation, taken s new_entry)
  unfolding create taken
  create-accepted h p = ground arith

  -- `lettuce_capability_create` keeps the invariant, whatever it is given.
  pub create-IsValid : IsValid s → IsValid (create s owner target operation permissions resource).1
  create-IsValid v = elim (Bool-cases (is_refused owner target operation permissions resource)) [
    | inl r ↦ rw (create-refused (inl r)) v
    | inr a ↦ elim (Bool-cases (s.free_count == 0)) [
      | inl z ↦ rw (create-refused (inr (==→eq _ _ z))) v
      | inr p ↦
          rw (create-accepted a (==→ne _ _ p))
            (taken-IsValid v new_entry (ground arith) refl refl (accepted-IsGranted a))
    ]
  ]

-- Either nothing happens, or the handle names an active slot, which is given back.
abbrev pub Revokes : Caps → ℕ → Bool × Caps → Type 0
Revokes s handle r =
    (r ≡ (false, s))
    ⊎ ((slot : ℕ) × (slot < table_size)
        × ((s.table slot).active ≡ true)
        × (handle ≡ make_handle slot (s.table slot).generation)
        × (r ≡ (true, given_back s slot (next_generation (s.table slot).generation))))

module _ (s : Caps) (handle : ℕ) where
  revoke_slot-Revokes :
      (slot g : ℕ)
      → handle ≡ make_handle slot g
      → slot < table_size
      → Revokes s handle (revoke_slot s (some (slot, g)))
  unfolding revoke_slot given_back
  revoke_slot-Revokes slot g e h = elim (Bool-cases (s.table slot).active) [
    | inr off ↦ inl (rw off)
    | inl on ↦ elim (Bool-cases ((s.table slot).generation == g)) [
      | inr stale ↦ inl (ground arith)
      | inl same ↦ inr (slot, h, on, rw e (ground arith), ground arith)
    ]
  ]

  pub revoke-Revokes : Revokes s handle (revoke s handle)
  unfolding revoke
  revoke-Revokes = elim (Option-cases (decode_handle handle)) [
    | inl e ↦ inl (rw (e, revoke_slot))
    | inr ((slot, g), e) ↦ rw e (
        revoke_slot-Revokes slot g (make_handle-decode_handle handle slot g e).0
          (make_handle-decode_handle handle slot g e).1)
  ]

  -- `lettuce_capability_revoke` keeps the invariant, whatever handle it is given.
  pub revoke-IsValid : IsValid s → IsValid (revoke s handle).1
  revoke-IsValid v = elim revoke-Revokes [
    | inl e ↦ rw e v
    | inr (slot, h, on, _, e) ↦
        let n = next_generation_lem (s.table slot).generation in
        rw e (given_back-IsValid v slot _ h on n.0 n.1)
  ]
