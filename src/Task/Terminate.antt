-- ===== src/Task/Terminate.antt =====
-- kernel/main/task.c: what terminating a task, and setting its weight or slice, change.
use lettuce_os.Base.{
  ℕ, ◌≤◌, ◌<◌, ◌≡◌, ◌≢◌, refl, sym, ◌∙◌, ◌⊎◌, inl, inr, none, some, arith, update, if◌then◌else◌,
  Option-cases,
}
use lettuce_os.Task.Table.{
  Tasks, terminated, create, get, terminate, is_current, next_generation, make_id, max_tasks,
  set_weight, set_slice, get_weight, get_slice, max_weight,
}
use lettuce_os.Task.Create.{created-fields, create-none, create-some, placed}
use lettuce_os.Task.Laws.{IsValid, find_vacant_lem, get_iff, next_generation_lem}

-- The tasks once the task in slot i is terminated
abbrev pub ended : Tasks → ℕ → Tasks
ended s i = record {
  table = update s.table i (record (s.table i) {
    state = terminated;
    generation = next_generation (s.table i).generation;
  });
  current = if is_current s.current i then none else s.current;
}

module _ (s : Tasks) (id : ℕ) where
  terminate-none : get s.table id ≡ none → terminate s id ≡ s
  unfolding terminate
  terminate-none e = rw (e, terminate)

  terminate-some : (i : ℕ) → get s.table id ≡ some i → terminate s id ≡ ended s i
  unfolding terminate
  terminate-some i e = rw (e, terminate)

  ended-IsValid : (i : ℕ) → IsValid s → i < max_tasks → IsValid (ended s i)
  ended-IsValid i v h =
      let n = next_generation_lem (s.table i).generation in
      record {
        generation_pos = λ j hj. ground (arith, v.generation_pos j hj, n.0);
        generation_lt = λ j hj. ground (arith, v.generation_lt j hj, n.1);
        own_id = λ j hj on. ground (arith, v.own_id j hj);
        current_lives = λ j e. ground (arith, v.current_lives j);
      }

  make_id-injective :
      (g k i j : ℕ) → i < max_tasks → j < max_tasks → make_id g i ≡ make_id k j → (g ≡ k) × (i ≡ j)
  unfolding make_id
  make_id-injective g k i j hi hj e = omega arith

  get-ended : (i : ℕ) → IsValid s → get s.table id ≡ some i → get (ended s i).table id ≡ none
  get-ended i v e = elim (Option-cases (get (ended s i).table id)) [
    | inl gone ↦ gone
    | inr (j, f) ↦
        let (hi, own, _) = (get_iff s.table id i).0 e in
        let (hj, found, _) = (get_iff (ended s i).table id j).0 f in
        let (gens, slots) =
          make_id-injective (s.table i).generation ((ended s i).table j).generation i j hi hj
            (sym own ∙ found) in
        absurd
          (ground (arith, (next_generation_lem (s.table i).generation).2 (v.generation_lt i hi)))
  ]

  get-placed-ended :
      (i k service_id domain_id entry_pc stack_top name : ℕ)
      → IsValid s
      → get s.table id ≡ some i
      → k < max_tasks
      → get (placed (ended s i) service_id domain_id entry_pc stack_top name k).table id ≡ none
  get-placed-ended i k service_id domain_id entry_pc stack_top name v e hk =
      let after = placed (ended s i) service_id domain_id entry_pc stack_top name k in
      elim (Option-cases (get after.table id)) [
        | inl gone ↦ gone
        | inr (j, f) ↦
            let (hi, own, _) = (get_iff s.table id i).0 e in
            let (hj, found, _) = (get_iff after.table id j).0 f in
            let (gens, slots) =
              make_id-injective (s.table i).generation (after.table j).generation i j hi hj
                (sym own ∙ found) in
            let fresh = next_generation_lem (s.table i).generation in
            let gen =
              (created-fields (ended s i) service_id domain_id entry_pc stack_top name k).2 in
            absurd (ground (arith, fresh.0, fresh.2 (v.generation_lt i hi), gen, gens, slots))
      ]

  get-create-ended :
      (i service_id domain_id entry_pc stack_top name : ℕ)
      → IsValid s
      → get s.table id ≡ some i
      → get (create (ended s i) service_id domain_id entry_pc stack_top name).1.table id ≡ none
  get-create-ended i service_id domain_id entry_pc stack_top name v e =
      elim (find_vacant_lem (ended s i).table max_tasks 0) [
        | inl (full, _) ↦
            rw (create-none (ended s i) service_id domain_id entry_pc stack_top name full)
              (get-ended i v e)
        | inr (k, found, _, hk, _, _) ↦
            rw (create-some (ended s i) service_id domain_id entry_pc stack_top name k found) (
              get-placed-ended i k service_id domain_id entry_pc stack_top name v e
                (omega (arith, hk)))
      ]

  -- In a valid table, `lettuce_task_terminate` of an identifier that finds nothing changes nothing.
  -- Otherwise the task found is terminated and is no longer the current one, and its identifier finds
  -- nothing in the table then, nor after one more `lettuce_task_create` in it, while the other tasks
  -- stay as they are. It keeps the invariant.
  pub terminate_lem :
      IsValid s
      → IsValid (terminate s id)
        × (((get s.table id ≡ none) × (terminate s id ≡ s))
            ⊎ ((i : ℕ) × (get s.table id ≡ some i)
                × (((terminate s id).table i).state ≡ terminated)
                × ((terminate s id).current ≢ some i)
                × (get (terminate s id).table id ≡ none)
                × ((service_id domain_id entry_pc stack_top name : ℕ)
                    → get
                        (create
                          (terminate s id)
                          service_id
                          domain_id
                          entry_pc
                          stack_top
                          name).1.table
                        id
                      ≡ none)
                × ((j : ℕ) → j ≢ i → (terminate s id).table j ≡ s.table j)))
  terminate_lem v = elim (Option-cases (get s.table id)) [
    | inl e ↦ rw (terminate-none e) (v, inl (e, refl))
    | inr (i, e) ↦
        let at = (get_iff s.table id i).0 e in
        rw (terminate-some i e) (
          ended-IsValid i v at.0,
          inr (
            i,
            e,
            ground arith,
            ground arith,
            get-ended i v e,
            λ service_id domain_id entry_pc stack_top name.
                get-create-ended i service_id domain_id entry_pc stack_top name v e,
            λ j ne. ground arith,
          ),
        )
  ]

-- The weight that `lettuce_task_set_weight` stores is from 1 to 10240, and is the one asked for when
-- that is in the range; the slice is never 0.
pub set_weight_lem :
    (s : Tasks) (i weight slice : ℕ)
    → let w = get_weight (set_weight s (some i) weight) (some i) in
      (1 ≤ w)
      × (w ≤ max_weight)
      × (1 ≤ weight → weight ≤ max_weight → w ≡ weight)
      × (1 ≤ get_slice (set_slice s (some i) slice) (some i))
unfolding get_weight set_weight get_slice set_slice
set_weight_lem s i weight slice = ground arith
