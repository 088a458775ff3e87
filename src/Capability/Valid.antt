-- ===== src/Capability/Valid.antt =====
-- The representation invariant of kernel/main/capability.c: the free list holds exactly the
-- inactive slots, each once, and every operation keeps it so.
use lettuce_os.Base.{
  ℕ, suc, ◌+◌, ◌-◌, ◌^◌, ◌≤◌, ◌<◌, ◌≡◌, ◌≢◌, inl, inr, true, false, arith, bit_and, fill_lem,
  lt→ltb, update, ◌==◌, refl, ap, pigeonhole, Bool-cases,
}
use lettuce_os.Capability.{Caps, Entry, init, init_entry, table_size, unknown_permissions}

-- What an active entry was granted: no field is an invalid one, and no permission is unknown.
pub record IsGranted (e : Entry) : Type 0 where
  pub owner_set : e.owner ≢ 0
  pub target_set : e.target ≢ 0
  pub operation_set : e.operation ≢ 0
  pub resource_set : e.resource ≢ 0
  pub permissions_set : e.permissions ≢ 0
  pub permissions_known : bit_and e.permissions unknown_permissions ≡ 0

pub record IsValid (s : Caps) : Type 0 where
  pub count_le : s.free_count ≤ table_size
  pub generation_pos : (i : ℕ) → i < table_size → 0 < (s.table i).generation
  pub generation_lt : (i : ℕ) → i < table_size → (s.table i).generation < 2 ^ 16
  pub free_lt : (k : ℕ) → k < s.free_count → s.free_slots k < table_size
  pub free_inactive : (k : ℕ) → k < s.free_count → (s.table (s.free_slots k)).active ≡ false
  pub free_distinct :
      (j k : ℕ) → j < s.free_count → k < s.free_count → s.free_slots j ≡ s.free_slots k → j ≡ k
  pub inactive_free :
      (i : ℕ)
      → i < table_size
      → (s.table i).active ≡ false
      → (k : ℕ) × (k < s.free_count) × (s.free_slots k ≡ i)
  pub active_granted : (i : ℕ) → i < table_size → (s.table i).active ≡ true → IsGranted (s.table i)

module _ (s : Caps) where
  pub init-table : (i : ℕ) → i < table_size → (init s).table i ≡ init_entry
  unfolding init
  init-table i h = rw (fill_lem table_size _ s.table i, lt→ltb i table_size h)

  init-free_slots : (i : ℕ) → i < table_size → (init s).free_slots i ≡ table_size - 1 - i
  unfolding init
  init-free_slots i h = rw (fill_lem table_size _ s.free_slots i, lt→ltb i table_size h)

-- Whatever the statics held before, `lettuce_capability_init` establishes the invariant, with every
-- slot free.
pub init-IsValid : (s : Caps) → IsValid (init s) × ((init s).free_count ≡ table_size)
init-IsValid s = (valid, count)
  where
    count : (init s).free_count ≡ table_size
    count = unfold init in refl

    inactive : (i : ℕ) → i < table_size → ((init s).table i).active ≡ false
    inactive i h = ap (λ e. e.active) (init-table s i h)

    valid : IsValid (init s)
    valid = record {
      count_le = omega (arith, count);
      generation_pos = λ i h. ground (arith, init-table s i h);
      generation_lt = λ i h. ground (arith, init-table s i h);
      free_lt = λ k h. omega (arith, count, init-free_slots s k (omega (arith, count)));
      free_inactive =
          λ k h. inactive _ (omega (arith, count, init-free_slots s k (omega (arith, count))));
      free_distinct = λ j k hj hk e. omega (
        arith,
        count,
        init-free_slots s j (omega (arith, count)),
        init-free_slots s k (omega (arith, count)),
      );
      inactive_free = λ i h e. (
        table_size - 1 - i,
        omega (arith, count),
        omega (arith, init-free_slots s (table_size - 1 - i) (omega arith)),
      );
      active_granted = λ i h e. ground (arith, inactive i h);
    }

-- Taking the last free slot for an entry that was granted.
unfoldable pub taken : Caps → Entry → Caps
taken s e = record s {
  table = update s.table (s.free_slots (s.free_count - 1)) e;
  free_count = s.free_count - 1;
}

module _ {s : Caps} (v : IsValid s) (e : Entry) where
  pub taken-IsValid :
      0 < s.free_count
      → e.generation ≡ (s.table (s.free_slots (s.free_count - 1))).generation
      → e.active ≡ true
      → IsGranted e
      → IsValid (taken s e)
  unfolding taken
  taken-IsValid pos same on granted = record {
    count_le = omega (arith, v.count_le);
    generation_pos = λ i h. ground (arith, v.generation_pos i h);
    generation_lt = λ i h. ground (arith, v.generation_lt i h);
    free_lt = λ k h. v.free_lt k (omega arith);
    free_inactive = λ k h. ground (
      arith,
      v.free_inactive k (omega arith),
      v.free_distinct k (s.free_count - 1) (omega arith) (omega arith),
    );
    free_distinct = λ j k hj hk. v.free_distinct j k (omega arith) (omega arith);
    inactive_free = λ i h off. still_free i h off (v.inactive_free i h);
    active_granted = λ i h act. ground (arith, v.active_granted i h);
  }
    where
      last : ℕ
      last = s.free_count - 1

      still_free :
          (i : ℕ)
          → i < table_size
          → (update s.table (s.free_slots last) e i).active ≡ false
          → ((s.table i).active ≡ false → (k : ℕ) × (k < s.free_count) × (s.free_slots k ≡ i))
          → (k : ℕ) × (k < s.free_count - 1) × (s.free_slots k ≡ i)
      still_free i h off f = elim (Bool-cases (i == s.free_slots last)) [
        | inl here ↦ ground arith
        | inr there ↦ (let (k, lt, at) = f (ground arith) in (k, ground arith, at))
      ]

-- Giving back an active slot under a new generation.
unfoldable pub given_back : Caps → ℕ → ℕ → Caps
given_back s slot g = record {
  table = update s.table slot (record init_entry { generation = g });
  free_slots = update s.free_slots s.free_count slot;
  free_count = s.free_count + 1;
}

module _ {s : Caps} (v : IsValid s) (slot g : ℕ) where
  given_back_slots : ℕ → ℕ
  given_back_slots = update s.free_slots s.free_count slot

  -- An active slot is not on the free list, so the list is not full.
  pub not_full : slot < table_size → (s.table slot).active ≡ true → s.free_count < table_size
  unfolding given_back_slots
  not_full h act =
      pigeonhole (suc s.free_count) table_size given_back_slots
        (λ k hk. ground (arith, v.free_lt k))
        (λ j k hj hk e. ground (arith, v.free_distinct j k, v.free_inactive j, v.free_inactive k))

  pub given_back-IsValid :
      slot < table_size
      → (s.table slot).active ≡ true
      → 0 < g
      → g < 2 ^ 16
      → IsValid (given_back s slot g)
  unfolding given_back
  given_back-IsValid h act pos lt = record {
    count_le = omega (arith, not_full h act);
    generation_pos = λ i hi. ground (arith, v.generation_pos i hi);
    generation_lt = λ i hi. ground (arith, v.generation_lt i hi);
    free_lt = λ k hk. ground (arith, v.free_lt k);
    free_inactive = λ k hk. ground (arith, v.free_inactive k);
    free_distinct =
        λ j k hj hk e. ground (arith, v.free_distinct j k, v.free_inactive j, v.free_inactive k);
    inactive_free = λ i hi off. on_list i hi off (v.inactive_free i hi);
    active_granted = λ i hi on. ground (arith, v.active_granted i hi);
  }
    where
      on_list :
          (i : ℕ)
          → i < table_size
          → (update s.table slot (record init_entry { generation = g }) i).active ≡ false
          → ((s.table i).active ≡ false → (k : ℕ) × (k < s.free_count) × (s.free_slots k ≡ i))
          → (k : ℕ) × (k < s.free_count + 1) × (update s.free_slots s.free_count slot k ≡ i)
      on_list i hi off f = elim (Bool-cases (i == slot)) [
        | inl here ↦ (s.free_count, omega arith, ground arith)
        | inr there ↦ (let (k, lt', at) = f (ground arith) in (k, ground arith, ground arith))
      ]
