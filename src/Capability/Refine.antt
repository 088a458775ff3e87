-- ===== src/Capability/Refine.antt =====
-- How the operations of kernel/main/capability.c change the map from handles to grants.
use lettuce_os.Base.{
  ℕ, ◌-◌, ◌<◌, ◌≡◌, ◌≢◌, ◌^◌, ◌↔◌, bit_and, refl, ap, subst, ◌⊎◌, inl, inr, Bool, true, false, sym,
  Option, none, some, arith, Bool-cases, Option-cases, ◌==◌, ==→eq, ==→ne, if◌then◌else◌,
}
use lettuce_os.Capability.{
  Caps, Entry, init, create, revoke, revoke_slot, is_refused, make_handle, decode_handle,
  table_size,
}
use lettuce_os.Capability.Handle.{
  decode_handle-make_handle, make_handle-decode_handle, make_handle-injective, make_handle-ne,
}
use lettuce_os.Capability.Valid.{IsValid, taken, given_back, init-table}
use lettuce_os.Capability.Keeps.{create-refused, create-accepted, revoke-Revokes}
use lettuce_os.Capability.Grants.{grant_in, grant_at, grant_of}

abbrev pub is_some {ℓ} : {A : Type ℓ} → Option A → Bool
is_some none = false
is_some (some a) = true

-- A property of what a handle decodes to
decode_handle-elim {ℓ} :
    (P : ℕ → Option (ℕ × ℕ) → Type ℓ) (handle : ℕ)
    → (decode_handle handle ≡ none → P handle none)
    → ((slot g : ℕ) → slot < table_size → P (make_handle slot g) (some (slot, g)))
    → P handle (decode_handle handle)
decode_handle-elim P handle f g = elim (Option-cases (decode_handle handle)) [
  | inl e ↦ rw e (f e)
  | inr ((slot, gen), e) ↦
      let m = make_handle-decode_handle handle slot gen e in
      rw e (subst (λ h. P h (some (slot, gen))) (sym m.0) (g slot gen m.1))
]

-- After `lettuce_capability_init` no handle stands for anything.
pub grant_of-init : (s : Caps) (handle : ℕ) → grant_of (init s) handle ≡ none
unfolding grant_of
grant_of-init s handle =
    decode_handle-elim (λ h d. grant_at (init s) d ≡ none) handle (λ e. unfold grant_at in refl)
      λ slot g h. unfold grant_at in ground (arith, init-table s slot h)

-- The arguments that are not acceptable: an owner, target, operation or resource of 0, no permission,
-- or one beyond the six lowest bits
abbrev pub IsBad : ℕ → ℕ → ℕ → ℕ → ℕ → Type 0
IsBad owner target operation permissions resource =
    (owner ≡ 0)
    ⊎ ((target ≡ 0)
        ⊎ ((operation ≡ 0)
            ⊎ ((resource ≡ 0) ⊎ ((permissions ≡ 0) ⊎ (bit_and permissions (2 ^ 32 - 1 - 63) ≢ 0)))))

module _ (owner target operation permissions resource : ℕ) where
  refused_iff :
      (is_refused owner target operation permissions resource ≡ true)
      ↔ IsBad owner target operation permissions resource
  unfolding is_refused
  refused_iff = (λ h. ground (arith, h), λ b. ground (arith, b))

  accepted-good :
      is_refused owner target operation permissions resource ≡ false
      → ¬ IsBad owner target operation permissions resource
  accepted-good a b = let r = refused_iff.1 b in cc (a, r)

module _ (s : Caps) (v : IsValid s) where
  grant_of-taken :
      (e : Entry) (handle : ℕ)
      → 0 < s.free_count
      → e.active ≡ true
      → let slot = s.free_slots (s.free_count - 1) in
        grant_of (taken s e) handle
        ≡ (if handle == make_handle slot e.generation then some (grant_in e) else grant_of s handle)
  unfolding grant_of
  grant_of-taken e handle pos on =
      decode_handle-elim
        (λ h d.
          grant_at (taken s e) d
          ≡ (if h == make_handle slot e.generation then some (grant_in e) else grant_at s d))
        handle
        (λ q.
          ground (arith, make_handle-ne handle slot e.generation q (v.free_lt last (omega arith))))
        λ slot' g h.
          unfold taken in
          ground (
            arith,
            make_handle-injective slot' g slot e.generation h (v.free_lt last (omega arith)),
            v.free_inactive last (omega arith),
          )
    where
      last : ℕ
      last = s.free_count - 1

      slot : ℕ
      slot = s.free_slots (s.free_count - 1)

  grant_of-free :
      0 < s.free_count
      → (g : ℕ) → grant_of s (make_handle (s.free_slots (s.free_count - 1)) g) ≡ none
  unfolding grant_of
  grant_of-free pos g =
      rw ((decode_handle-make_handle _ g (v.free_lt (s.free_count - 1) (omega arith))).0)
        (ground (arith, v.free_inactive (s.free_count - 1) (omega arith)))

  all_active : s.free_count ≡ 0 → (i : ℕ) → i < table_size → (s.table i).active ≡ true
  all_active z i h = elim (Bool-cases (s.table i).active) [
    | inl on ↦ on
    | inr off ↦ (let (k, lt, at) = v.inactive_free i h off in absurd (omega arith))
  ]

  module _ (owner target operation permissions resource : ℕ) where
    -- `lettuce_capability_create`, abstractly: it refuses with the invalid handle and changes
    -- nothing, when the owner, target, operation or resource is 0, when the permissions are none or go
    -- beyond the six that there are, or when every slot is active; or it returns a handle
    -- that stood for nothing, and that stands for the grant asked for in the table that it leaves, while all other
    -- handles stand for what they stood for.
    pub create_refines :
        let r = create s owner target operation permissions resource in
        ((r ≡ (0, s))
          × (IsBad owner target operation permissions resource
              ⊎ ((i : ℕ) → i < table_size → (s.table i).active ≡ true)))
        ⊎ ((r.0 ≢ 0)
            × ¬ IsBad owner target operation permissions resource
            × (grant_of s r.0 ≡ none)
            × ((handle : ℕ)
                → grant_of r.1 handle ≡ (
                    if handle == r.0
                    then some (record {
                      owner = owner;
                      target = target;
                      operation = operation;
                      resource = resource;
                      permissions = permissions;
                    })
                    else grant_of s handle)))
    create_refines = elim (Bool-cases (is_refused owner target operation permissions resource)) [
      | inl r ↦ inl (
        create-refused s owner target operation permissions resource (inl r),
        inl ((refused_iff owner target operation permissions resource).0 r),
      )
      | inr a ↦ elim (Bool-cases (s.free_count == 0)) [
        | inl z ↦ inl (
          create-refused s owner target operation permissions resource (inr (==→eq _ _ z)),
          inr (all_active (==→eq _ _ z)),
        )
        | inr p ↦
            rw (create-accepted s owner target operation permissions resource a (==→ne _ _ p)) (
              inr (
                (decode_handle-make_handle _ _ (v.free_lt (s.free_count - 1) (ground arith))).1,
                accepted-good owner target operation permissions resource a,
                grant_of-free (ground arith) _,
                λ h. grant_of-taken _ h (ground arith) refl,
              ))
      ]
    ]

module _ (s : Caps) where
  grant_of-given_back :
      (slot n handle : ℕ)
      → slot < table_size
      → (s.table slot).active ≡ true
      → grant_of (given_back s slot n) handle
        ≡ (if handle == make_handle slot (s.table slot).generation then none else grant_of s handle)
  unfolding grant_of
  grant_of-given_back slot n handle h on =
      decode_handle-elim
        (λ h' d.
          grant_at (given_back s slot n) d
          ≡ (if h' == make_handle slot (s.table slot).generation then none else grant_at s d))
        handle (λ q. ground (arith, make_handle-ne handle slot (s.table slot).generation q h))
        λ slot' g h'.
          unfold given_back in
          ground (arith, make_handle-injective slot' g slot (s.table slot).generation h' h)

  grant_of-active :
      (slot : ℕ)
      → slot < table_size
      → (s.table slot).active ≡ true
      → grant_of s (make_handle slot (s.table slot).generation) ≡ some (grant_in (s.table slot))
  unfolding grant_of
  grant_of-active slot h on = rw ((decode_handle-make_handle slot _ h).0) (ground arith)

  revoke_slot_fails : (d : Option (ℕ × ℕ)) → (revoke_slot s d).0 ≡ false → grant_at s d ≡ none
  unfolding grant_at revoke_slot
  revoke_slot_fails none h = refl
  revoke_slot_fails (some (slot, g)) h = ground arith

  revoke_fails : (handle : ℕ) → revoke s handle ≡ (false, s) → grant_of s handle ≡ none
  unfolding revoke grant_of
  revoke_fails handle e = revoke_slot_fails (decode_handle handle) (ap (λ r. r.0) e)

  only_dead :
      (handle handle' : ℕ)
      → grant_of s handle ≡ none
      → grant_of s handle' ≡ (if handle' == handle then none else grant_of s handle')
  only_dead handle handle' dead = elim (Bool-cases (handle' == handle)) [
    | inl same ↦ rw same (rw (==→eq handle' handle same) dead)
    | inr other ↦ rw other
  ]

  -- `lettuce_capability_revoke`, abstractly: it answers whether the handle stood for a grant; in
  -- the table that it leaves, the handle stands for nothing, and all other handles stand for what they
  -- stood for.
  pub revoke_refines :
      (handle : ℕ)
      → let (done, s') = revoke s handle in
        (done ≡ is_some (grant_of s handle))
        × ((handle' : ℕ)
            → grant_of s' handle' ≡ (if handle' == handle then none else grant_of s handle'))
  revoke_refines handle = elim (revoke-Revokes s handle) [
    | inl e ↦
        let dead = revoke_fails handle e in rw e (rw dead refl, λ h'. only_dead handle h' dead)
    | inr (slot, h, on, m, e) ↦
        rw (e, m) (rw (grant_of-active slot h on) refl, λ h'. grant_of-given_back slot _ h' h on)
  ]
