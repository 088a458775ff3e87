-- ===== src/Memory/Buffers/Laws.antt =====
-- memory/shared/buffer.c as a map from handles to buffers.
use lettuce_os.Base.{
  ℕ, zero, suc, ◌+◌, ◌≤◌, ◌<◌, ◌≡◌, ◌≢◌, ◌↔◌, refl, sym, subst, ap, ◌⊎◌, inl, inr, Bool, true,
  false, not, ◌||◌, Option, none, some, arith, update, fill_lem, ◌==◌, ◌/=◌, if◌then◌else◌,
  Bool-cases, Option-cases, ==→eq, ==→ne, from_next,
}
use lettuce_os.Abi.{Status, ok, invalid_argument, denied, unavailable}
use lettuce_os.Memory.Buffers.{
  SharedBuffer, Buffers, buffer_count, buffer_size, make_handle, decode_handle, non_zero, zeroed,
  find_inactive, new_buffer, is_refused, create, create_at,
}

pub decode_handle-make_handle :
    (slot g : ℕ)
    → slot < buffer_count
    → (decode_handle (make_handle slot g) ≡ some (slot, g)) × (make_handle slot g ≢ 0)
unfolding decode_handle make_handle
decode_handle-make_handle slot g h = (ground arith, omega arith)

pub make_handle-decode_handle :
    (handle slot g : ℕ)
    → decode_handle handle ≡ some (slot, g)
    → (handle ≡ make_handle slot g) × (slot < buffer_count)
unfolding decode_handle make_handle
make_handle-decode_handle handle slot g h = ground arith

make_handle-injective :
    (a g b k : ℕ)
    → a < buffer_count
    → b < buffer_count
    → make_handle a g ≡ make_handle b k
    → (a ≡ b) × (g ≡ k)
unfolding make_handle
make_handle-injective a g b k ha hb e = omega arith

make_handle-ne :
    (handle slot g : ℕ)
    → decode_handle handle ≡ none
    → slot < buffer_count
    → handle ≢ make_handle slot g
make_handle-ne handle slot g e h m =
    cc (e, ap decode_handle m, (decode_handle-make_handle slot g h).0)

unfoldable pub buffer_at : Buffers → Option (ℕ × ℕ) → Option SharedBuffer
buffer_at t none = none
buffer_at t (some (slot, g)) =
    if not (t slot).active || (t slot).generation /= g then none else some (t slot)

-- The buffer that a handle stands for, if it stands for one
unfoldable pub buffer_of : Buffers → ℕ → Option SharedBuffer
unfolding buffer_at
buffer_of t handle = buffer_at t (decode_handle handle)

-- A property of what a handle decodes to
decode_handle-elim {ℓ} :
    (P : ℕ → Option (ℕ × ℕ) → Type ℓ) (handle : ℕ)
    → (decode_handle handle ≡ none → P handle none)
    → ((slot g : ℕ) → slot < buffer_count → P (make_handle slot g) (some (slot, g)))
    → P handle (decode_handle handle)
decode_handle-elim P handle f g = elim (Option-cases (decode_handle handle)) [
  | inl e ↦ rw e (f e)
  | inr ((slot, gen), e) ↦
      let m = make_handle-decode_handle handle slot gen e in
      rw e (subst (λ h. P h (some (slot, gen))) (sym m.0) (g slot gen m.1))
]

-- A slot that is written, when only the handle h stood or stands for it
pub buffer_of-update :
    (t : Buffers) (i g : ℕ) (b : SharedBuffer) (handle : ℕ)
    → i < buffer_count
    → ((t i).active ≡ false) ⊎ ((t i).generation ≡ g)
    → (b.active ≡ false) ⊎ (b.generation ≡ g)
    → buffer_of (update t i b) handle ≡ (
        if handle == make_handle i g
        then (if b.active then some b else none)
        else buffer_of t handle)
unfolding buffer_of
buffer_of-update t i g b handle h was is =
    decode_handle-elim
      (λ h' d.
        buffer_at (update t i b) d
        ≡ (if h' == make_handle i g then (if b.active then some b else none) else buffer_at t d))
      handle (λ q. unfold buffer_at in ground (arith, make_handle-ne handle i g q h))
      λ slot k hs. unfold buffer_at in ground (arith, make_handle-injective slot k i g hs h)

pub zeroed_lem : (payload : ℕ → ℕ) (b : ℕ) → b < buffer_size → zeroed payload b ≡ 0
unfolding zeroed
zeroed_lem payload b h = ground (arith, fill_lem buffer_size (λ i x. 0) payload b)

-- The first inactive buffer, if there is one
find_inactive_lem :
    (t : Buffers) (n i : ℕ)
    → ((find_inactive t n i ≡ none) × ((j : ℕ) → i ≤ j → j < i + n → (t j).active ≡ true))
      ⊎ ((k : ℕ) × (find_inactive t n i ≡ some k) × (k < i + n) × ((t k).active ≡ false))
unfolding find_inactive
find_inactive_lem t zero i = inl (refl, λ j lo hi. absurd (omega arith))
find_inactive_lem t (suc n) i = elim (Bool-cases (t i).active) [
  | inr here ↦ inr (i, rw here, omega arith, here)
  | inl taken ↦ elim (find_inactive_lem t n (i + 1)) [
    | inl (e, all) ↦ inl (
      rw taken e,
      λ j lo hi. from_next (λ k. (t k).active ≡ true) i j taken (λ l. all j l (omega arith)) lo,
    )
    | inr (k, e, hi, free) ↦ inr (k, rw taken e, omega arith, free)
  ]
]

-- The bad arguments: no owner, no resource, no byte or more than 4096, or no place for the handle
abbrev pub IsBad : ℕ → ℕ → ℕ → Bool → Type 0
IsBad owner resource size given =
    (owner ≡ 0) ⊎ ((resource ≡ 0) ⊎ ((size ≡ 0) ⊎ ((4096 < size) ⊎ (given ≡ false))))

refused_iff :
    (owner resource size : ℕ) (given : Bool)
    → (is_refused owner resource size given ≡ true) ↔ IsBad owner resource size given
refused_iff owner resource size given = (λ h. ground (arith, h), λ b. ground (arith, b))

accepted-good :
    (owner resource size : ℕ) (given : Bool)
    → is_refused owner resource size given ≡ false
    → ¬ IsBad owner resource size given
accepted-good owner resource size given a b =
    let r = (refused_iff owner resource size given).1 b in cc (a, r)

module _ (t : Buffers) (caller owner resource size read_capability write_capability : ℕ) where
  -- What `create` may do: refuse in one of three ways, or make a buffer
  abbrev pub MakesBuffer : Bool → Status × Option ℕ × Buffers → Type 0
  MakesBuffer given out =
      (IsBad owner resource size given × (out ≡ (invalid_argument, none, t)))
      ⊎ (((caller ≢ owner) × (out ≡ (denied, none, t)))
          ⊎ ((((j : ℕ) → j < buffer_count → (t j).active ≡ true) × (out ≡ (unavailable, none, t)))
              ⊎ ((h : ℕ) × (b : SharedBuffer) × (t' : Buffers) × (out ≡ (ok, some h, t'))
                  × ¬ IsBad owner resource size given
                  × (caller ≡ owner)
                  × (buffer_of t h ≡ none)
                  × (b.owner ≡ owner)
                  × (b.resource ≡ resource)
                  × (b.size ≡ size)
                  × (b.read_capability ≡ read_capability)
                  × (b.write_capability ≡ write_capability)
                  × ((i : ℕ) → i < buffer_size → b.payload i ≡ 0)
                  × ((handle : ℕ)
                      → buffer_of t' handle
                        ≡ (if handle == h then some b else buffer_of t handle)))))

  buffer_of-inactive :
      (i g : ℕ) → i < buffer_count → (t i).active ≡ false → buffer_of t (make_handle i g) ≡ none
  unfolding buffer_of buffer_at
  buffer_of-inactive i g h off = rw ((decode_handle-make_handle i g h).0) (ground arith)

  create-accepted :
      (given : Bool)
      → is_refused owner resource size given ≡ false
      → caller ≡ owner
      → create t caller owner resource size read_capability write_capability given
        ≡ create_at t owner resource size read_capability write_capability
            (find_inactive t buffer_count 0)
  unfolding create
  create-accepted given a same = ground arith

  create_at-Makes :
      (given : Bool)
      → is_refused owner resource size given ≡ false
      → caller ≡ owner
      → MakesBuffer given (
          create_at t owner resource size read_capability write_capability
            (find_inactive t buffer_count 0))
  unfolding create_at
  create_at-Makes given a same = elim (find_inactive_lem t buffer_count 0) [
    | inl (e, all) ↦ rw e (inr (inr (inl (λ j h. all j (omega arith) (omega arith), refl))))
    | inr (i, e, h, off) ↦
        let b = new_buffer (t i) owner resource size read_capability write_capability in
        let g = non_zero (t i).generation in
        rw e (
          inr (
            inr (
              inr (
                make_handle i g,
                b,
                update t i b,
                refl,
                accepted-good owner resource size given a,
                same,
                buffer_of-inactive i g h off,
                refl,
                refl,
                refl,
                refl,
                refl,
                λ k hk. zeroed_lem (t i).payload k hk,
                λ handle. buffer_of-update t i g b handle h (inl off) (inr refl),
              ))))
  ]

  create-refused :
      (given : Bool)
      → is_refused owner resource size given ≡ true
      → create t caller owner resource size read_capability write_capability given
        ≡ (invalid_argument, none, t)
  unfolding create
  create-refused given r = ground arith

  create-denied :
      (given : Bool)
      → is_refused owner resource size given ≡ false
      → caller ≢ owner
      → create t caller owner resource size read_capability write_capability given
        ≡ (denied, none, t)
  unfolding create
  create-denied given a other = ground arith

  -- `lettuce_shared_buffer_create` refuses an owner, a resource or a size of 0, a size above 4096
  -- and a missing place for the handle, a caller that is not the owner, or, with
  -- all buffers active, any request, and changes nothing; or it returns a handle that stood for no
  -- buffer, and that stands for a new one, as asked for and with a zeroed payload, in the state that it leaves,
  -- while all other handles stand for what they stood for.
  pub create-MakesBuffer :
      (given : Bool)
      → MakesBuffer given
          (create t caller owner resource size read_capability write_capability given)
  create-MakesBuffer given = elim (Bool-cases (is_refused owner resource size given)) [
    | inl r ↦ inl ((refused_iff owner resource size given).0 r, create-refused given r)
    | inr a ↦ elim (Bool-cases (caller == owner)) [
      | inr other ↦ inr (inl (==→ne _ _ other, create-denied given a (==→ne _ _ other)))
      | inl same ↦
          rw (create-accepted given a (==→eq _ _ same)) (create_at-Makes given a (==→eq _ _ same))
    ]
  ]
