-- ===== src/Memory/Buffers/Access.antt =====
-- memory/shared/buffer.c: who reaches a buffer's payload, and what revoking a buffer does.
use lettuce_os.Base.{
  ℕ, ◌<◌, ◌≡◌, ◌≢◌, refl, ◌⊎◌, inl, inr, ◌↔◌, Bool, true, ◌&&◌, Option, none, some, arith, update,
  ◌==◌, if◌then◌else◌, Bool-cases, Option-cases,
}
use lettuce_os.Abi.{Status, ok, op_read, op_write}
use lettuce_os.Capability
use lettuce_os.Capability.{Caps}
use lettuce_os.Capability.Grants.{Grant, Allows, grant_of, check_iff}
use lettuce_os.Memory.Buffers.{
  SharedBuffer, Buffers, buffer_count, buffer_size, make_handle, decode_handle, access, access_slot,
  operation_of, permission_of, capability_of, retired, revoke, revoke_slot,
}
use lettuce_os.Memory.Buffers.Laws.{
  decode_handle-make_handle, make_handle-decode_handle, buffer_of, buffer_at, buffer_of-update,
  zeroed_lem,
}

-- The caller may reach the buffer in a slot with the capability: the handle stands for that buffer,
-- the capability is the buffer's own for writing or for reading, and it stands for a grant to the
-- caller of the operation 257 with the permission WRITE, or of the operation 256 with READ, on the
-- owner's resource.
pub record Reaches (t : Buffers) (caps : Caps) (caller handle capability : ℕ) (write : Bool)
    (slot : ℕ) : Type 0 where
  pub in_table : slot < buffer_count
  pub named : handle ≡ make_handle slot (t slot).generation
  pub active : (t slot).active ≡ true
  pub expected :
      capability ≡ (if write then (t slot).write_capability else (t slot).read_capability)
  pub allowed :
      (g : Grant) × (grant_of caps capability ≡ some g)
      × Allows g caller
          (t slot).owner
          (if write then 257 else 256)
          (if write then op_write else op_read)
          (t slot).resource

module _ (t : Buffers) (caps : Caps) (caller handle capability : ℕ) (write : Bool) where
  check_of : ℕ → Bool
  check_of slot =
      Capability.check caps caller capability (t slot).owner (operation_of write)
        (permission_of write) (t slot).resource

  access_slot_sound :
      (d : Option (ℕ × ℕ)) (slot size : ℕ)
      → access_slot t caps caller capability write d ≡ (ok, some (slot, size))
      → (d ≡ some (slot, (t slot).generation))
        × ((t slot).active ≡ true)
        × (capability ≡ capability_of (t slot) write)
        × (check_of slot ≡ true)
        × (size ≡ (t slot).size)
  unfolding access_slot check_of
  access_slot_sound none slot size h = absurd (ground arith)
  access_slot_sound (some (s, g)) slot size h = ground arith

  access_sound :
      (slot size : ℕ)
      → access t caps caller handle capability write true ≡ (ok, some (slot, size))
      → Reaches t caps caller handle capability write slot × (size ≡ (t slot).size)
  unfolding access check_of
  access_sound slot size h =
      let (d, on, cap, checked, same) = access_slot_sound (decode_handle handle) slot size h in
      let m = make_handle-decode_handle handle slot _ d in
      (
        record {
          in_table = m.1;
          named = m.0;
          active = on;
          expected = cap;
          allowed =
              ((check_iff caps caller capability (t slot).owner (operation_of write)
                  (permission_of write) (t slot).resource).0
                checked).1;
        },
        same,
      )

  access_complete :
      (slot : ℕ)
      → Reaches t caps caller handle capability write slot
      → access t caps caller handle capability write true ≡ (ok, some (slot, (t slot).size))
  unfolding access access_slot
  access_complete slot r =
      let checked =
        (check_iff caps caller capability (t slot).owner (operation_of write) (permission_of write)
            (t slot).resource).1
          (ground arith, r.allowed) in
      ground (
        arith,
        r.named,
        r.active,
        r.expected,
        checked,
        (decode_handle-make_handle slot (t slot).generation r.in_table).0,
      )

  -- `lettuce_shared_buffer_access`, with places for its results, gives the payload of a slot, with its
  -- size, exactly to a caller whose handle stands for that buffer and whose capability is the buffer's
  -- for the direction and a grant to the caller: of the operation 257 with WRITE for writing, and of
  -- 256 with READ for reading, on the owner's resource.
  pub access_iff :
      (slot size : ℕ)
      → (access t caps caller handle capability write true ≡ (ok, some (slot, size)))
        ↔ (Reaches t caps caller handle capability write slot × (size ≡ (t slot).size))
  access_iff slot size = (access_sound slot size, λ (r, same). rw same (access_complete slot r))

module _ (t : Buffers) (caller handle : ℕ) where
  -- What `revoke` may do with the buffer of the handle
  abbrev pub RevokesBuffer : Status × Buffers → Type 0
  RevokesBuffer (status, t') =
      ((status ≢ ok)
        × (t' ≡ t)
        × ((b : SharedBuffer) → buffer_of t handle ≡ some b → b.owner ≢ caller))
      ⊎ ((slot : ℕ) × (status ≡ ok)
          × (buffer_of t handle ≡ some (t slot))
          × ((t slot).owner ≡ caller)
          × ((i : ℕ) → i < buffer_size → (t' slot).payload i ≡ 0)
          × ((handle' : ℕ)
              → buffer_of t' handle' ≡ (if handle' == handle then none else buffer_of t handle')))

  revoke_slot-Revokes :
      (slot g : ℕ)
      → handle ≡ make_handle slot g
      → slot < buffer_count
      → RevokesBuffer (revoke_slot t caller (some (slot, g)))
  unfolding revoke_slot
  revoke_slot-Revokes slot g m h =
      let d : decode_handle handle ≡ some (slot, g) =
        rw m ((decode_handle-make_handle slot g h).0) in
      elim (Bool-cases
        ((t slot).active && ((t slot).generation == g) && ((t slot).owner == caller))) [
          | inr bad ↦
              inl
                (ground arith, ground arith, λ b e. unfold buffer_of buffer_at in ground (arith, d))
          | inl good ↦
              let done : revoke_slot t caller (some (slot, g))
                  ≡ (ok, update t slot (retired (t slot))) =
                unfold revoke_slot in ground arith in
              rw done (
                inr (
                  slot,
                  refl,
                  unfold buffer_of buffer_at in ground (arith, d),
                  ground arith,
                  λ i hi. ground (arith, zeroed_lem (t slot).payload i hi),
                  λ handle'. ground (
                    arith,
                    m,
                    buffer_of-update t slot g (retired (t slot)) handle' h (inr (ground arith))
                        (inl refl),
                  ),
                ))
        ]

  -- `lettuce_shared_buffer_revoke` fails and changes nothing exactly when the handle stands for no
  -- buffer of the caller; else it zeroes the payload, the handle stands for nothing, and all other
  -- handles stand for what they stood for.
  pub revoke-RevokesBuffer : RevokesBuffer (revoke t caller handle)
  unfolding revoke
  revoke-RevokesBuffer = elim (Option-cases (decode_handle handle)) [
    | inl e ↦ rw e (
        inl (
          unfold revoke_slot in ground arith,
          unfold revoke_slot in refl,
          λ b f. unfold buffer_of buffer_at in ground arith,
        ))
    | inr ((slot, g), e) ↦
        let m = make_handle-decode_handle handle slot g e in
        rw e (revoke_slot-Revokes slot g m.0 m.1)
  ]
