-- ===== src/Shared/DynamicArray/Push.antt =====
-- shared/dynamic_array/dynamic_array.c: pushing, with the growth of the block.
use lettuce_os.Base.{
  ℕ, ◌+◌, ◌-◌, ◌*◌, ◌/◌, ◌^◌, ◌≤◌, ◌<◌, ◌≡◌, refl, ap, ◌∙◌, sym, ◌⊎◌, inl, inr, Bool, true, false,
  none, some, Table, fill_lem, ltb, leb, arith, Bool-cases, Option-cases,
}
use lettuce_os.Shared.DynamicArray.{
  DynamicArray, Malloc, get, append, relocated, wrap, init, resize, push, push_into, push_block,
  growth_factor, pointer_size, initial_capacity,
}
use lettuce_os.Shared.DynamicArray.Laws.{IsValid, Agrees, Extends, append-Extends}

-- The array in a block of twice the capacity
abbrev pub grown : DynamicArray → Table ℕ → Table ℕ → DynamicArray
grown a items new_block = record a {
  block = some (relocated a items new_block);
  capacity = a.capacity * growth_factor;
  head = 0;
}

-- The largest capacity that `resize` doubles
abbrev pub growth_limit : ℕ
growth_limit = (2 ^ 64 - 1) / (growth_factor * pointer_size)

grown-IsValid :
    (a : DynamicArray) (items new_block : Table ℕ)
    → IsValid a
    → 0 < a.capacity
    → a.capacity ≤ growth_limit
    → IsValid (grown a items new_block)
grown-IsValid a items new_block v pos small = record {
  count_le = omega (arith, v.count_le);
  capacity_le = omega arith;
  no_block = λ n. ground arith;
  head_lt = λ n. omega arith;
}

get-grown :
    (a : DynamicArray) (items new_block : Table ℕ) (i : ℕ)
    → a.block ≡ some items
    → IsValid a
    → a.capacity ≤ growth_limit
    → i < a.count
    → get (grown a items new_block) i ≡ get a i
unfolding get relocated
get-grown a items new_block i e v small hi =
    let at : wrap (a.capacity * growth_factor) (0 + i) ≡ i =
      unfold wrap in ground (arith, v.count_le) in
    ground (arith, at, fill_lem a.count (λ k x. items (wrap a.capacity (a.head + k))) new_block i)

module _ (malloc : Malloc) (a : DynamicArray) (item : ℕ) where
  -- What a push may do: add the item behind the others; or, when a request for memory fails or the
  -- block is too large to double, report that and keep the items.
  abbrev pub Pushes : Bool × DynamicArray → Type 0
  Pushes (done, b) =
      ((done ≡ true) × Extends a item b)
      ⊎ ((done ≡ false)
          × IsValid b
          × (b.count ≡ a.count)
          × Agrees a b a.count
          × (((n : ℕ) × (malloc n ≡ none))
              ⊎ ((growth_limit < a.capacity) × (a.count ≡ a.capacity))))

  grown-Extends :
      (items new_block : Table ℕ)
      → a.block ≡ some items
      → IsValid a
      → 0 < a.capacity
      → a.capacity ≤ growth_limit
      → Extends a item (append (grown a items new_block) (relocated a items new_block) item)
  grown-Extends items new_block e v pos small =
      let (valid, count, kept, last) =
        append-Extends (grown a items new_block) (relocated a items new_block) item refl
          (grown-IsValid a items new_block v pos small) (omega (arith, v.count_le)) in
      (valid, count, λ i hi. kept i hi ∙ get-grown a items new_block i e v small hi, last)

  resize-none :
      (items : Table ℕ)
      → 0 < a.capacity
      → malloc (a.capacity * growth_factor * pointer_size) ≡ none
      → resize malloc a items ≡ none
  unfolding resize
  resize-none items pos e = ground arith

  resize-large : (items : Table ℕ) → growth_limit < a.capacity → resize malloc a items ≡ none
  unfolding resize
  resize-large items big = ground arith

  resize-some :
      (items new_block : Table ℕ)
      → 0 < a.capacity
      → a.capacity ≤ growth_limit
      → malloc (a.capacity * growth_factor * pointer_size) ≡ some new_block
      → resize malloc a items ≡ some (grown a items new_block, relocated a items new_block)
  unfolding resize
  resize-some items new_block pos small e = ground arith

  push_into-Pushes :
      (items : Table ℕ) → a.block ≡ some items → IsValid a → Pushes (push_into malloc a items item)
  unfolding push_into
  push_into-Pushes items e v =
      let pos : 0 < a.capacity = omega (arith, v.head_lt (ground arith)) in
      elim (Bool-cases (leb a.capacity a.count)) [
        | inr room ↦ rw room (inl (refl, append-Extends a items item e v (ground arith)))
        | inl full ↦ elim (Bool-cases (ltb growth_limit a.capacity)) [
          | inl big ↦
              rw (full, resize-large items (ground arith))
                (inr (refl, v, refl, λ i hi. refl, inr (ground arith, ground (arith, v.count_le))))
          | inr small ↦ elim (Option-cases (malloc (a.capacity * growth_factor * pointer_size))) [
            | inl fails ↦
                rw (full, resize-none items pos fails)
                  (inr (refl, v, refl, λ i hi. refl, inl (_, fails)))
            | inr (new_block, got) ↦
                rw (full, resize-some items new_block pos (ground arith) got)
                  (inl (refl, grown-Extends items new_block e v pos (ground arith)))
          ]
        ]
      ]

  fresh : Table ℕ → DynamicArray
  fresh items = record { head = 0; count = 0; capacity = initial_capacity; block = some items }

  fresh-IsValid : (items : Table ℕ) → IsValid (fresh items)
  unfolding fresh
  fresh-IsValid items = record {
    count_le = omega arith;
    capacity_le = omega arith;
    no_block = λ n. ground arith;
    head_lt = λ n. omega arith;
  }

  push-fails :
      a.block ≡ none
      → malloc (initial_capacity * pointer_size) ≡ none
      → push malloc a item ≡ (false, record { head = 0; count = 0; capacity = 0; block = none })
  unfolding push init push_block
  push-fails e fails = ground arith

  push-starts :
      (items : Table ℕ)
      → a.block ≡ none
      → malloc (initial_capacity * pointer_size) ≡ some items
      → push malloc a item ≡ (true, append (fresh items) items item)
  unfolding push init push_block push_into fresh
  push-starts items e got = ground arith

  push-goes_on :
      (items : Table ℕ) → a.block ≡ some items → push malloc a item ≡ push_into malloc a items item
  unfolding push
  push-goes_on items e = ground arith

  -- `array_push` on a valid array adds the item behind the others, which keep their order also when
  -- the block is replaced by a larger one; it fails only when a request for memory fails or the
  -- full block is too large to double, and then the array keeps its items. It stays valid.
  pub push-Pushes : IsValid a → Pushes (push malloc a item)
  push-Pushes v = elim (Option-cases a.block) [
    | inr (items, e) ↦ rw (push-goes_on items e) (push_into-Pushes items e v)
    | inl e ↦
        let empty : a.count ≡ 0 = omega (arith, v.count_le, v.no_block e) in
        elim (Option-cases (malloc (initial_capacity * pointer_size))) [
          | inl fails ↦ rw (push-fails e fails) (
              inr (
                refl,
                record {
                  count_le = omega arith;
                  capacity_le = omega arith;
                  no_block = λ n. refl;
                  head_lt = λ n. absurd (n refl);
                },
                sym empty,
                λ i hi. absurd (omega arith),
                inl (_, fails),
              ))
          | inr (items, got) ↦
              let (valid, count, kept, last) =
                append-Extends (fresh items) items item (unfold fresh in refl) (fresh-IsValid items)
                  (unfold fresh in omega arith) in
              rw (push-starts items e got) (
                inl (
                  refl,
                  (
                    valid,
                    unfold fresh in omega (arith, count, empty),
                    λ i hi. absurd (omega arith),
                    ap (get (append (fresh items) items item)) empty ∙ unfold fresh in last,
                  ),
                ))
        ]
  ]
