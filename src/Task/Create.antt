-- ===== src/Task/Create.antt =====
-- kernel/main/task.c: what creating a task changes.
use lettuce_os.Base.{
  ℕ, ◌≤◌, ◌<◌, ◌≡◌, ◌≢◌, refl, ap, ◌∙◌, ◌⊎◌, inl, inr, true, false, Option, none, some, arith,
  update,
}
use lettuce_os.Task.Table.{
  Task, Tasks, ready, is_vacant, create, get, find_vacant, new_task, make_id, non_zero, max_tasks,
}
use lettuce_os.Task.Laws.{IsValid, get_iff, find_vacant_lem}

module _ (s : Tasks) (service_id domain_id entry_pc stack_top name : ℕ) where
  -- The task that `create` puts into the slot i, and the table with it
  abbrev pub created : ℕ → Task
  created i = new_task (s.table i) i service_id domain_id entry_pc stack_top name

  abbrev pub placed : ℕ → Tasks
  placed i = record s { table = update s.table i (created i) }

  pub create-none :
      find_vacant s.table max_tasks 0 ≡ none
      → create s service_id domain_id entry_pc stack_top name ≡ (none, s)
  unfolding create
  create-none e = rw (e, create)

  pub create-some :
      (i : ℕ)
      → find_vacant s.table max_tasks 0 ≡ some i
      → create s service_id domain_id entry_pc stack_top name ≡ (some i, placed i)
  unfolding create
  create-some i e = rw (e, create)

  -- A new task is ready, under the identifier of its slot and generation.
  pub created-fields :
      (i : ℕ)
      → ((created i).state ≡ ready)
        × ((created i).id ≡ make_id (created i).generation i)
        × ((created i).generation ≡ non_zero (s.table i).generation)
  unfolding new_task
  created-fields i = (refl, refl, refl)

  placed-IsValid :
      (i : ℕ) → IsValid s → i < max_tasks → is_vacant (s.table i).state ≡ true → IsValid (placed i)
  placed-IsValid i v h vacant =
      let (st, own, gen) = created-fields i in
      record {
        generation_pos = λ j hj. ground (arith, v.generation_pos j hj, gen);
        generation_lt = λ j hj. ground (arith, v.generation_lt j hj, v.generation_lt i h, gen);
        own_id = λ j hj on. ground (arith, v.own_id j hj, own);
        current_lives = λ j e. ground (arith, v.current_lives j e, st);
      }

  -- What the call may return: no task, or the one in the slot i
  abbrev pub Creates : Option ℕ × Tasks → Type 0
  Creates (task, s') =
      ((task ≡ none) × (s' ≡ s) × ((j : ℕ) → j < max_tasks → is_vacant (s.table j).state ≡ false))
      ⊎ ((i : ℕ) × (task ≡ some i)
          × (i < max_tasks)
          × (is_vacant (s.table i).state ≡ true)
          × ((j : ℕ) → j < i → is_vacant (s.table j).state ≡ false)
          × (s'.table i ≡ created i)
          × ((s'.table i).state ≡ ready)
          × (get s'.table (s'.table i).id ≡ some i)
          × ((j : ℕ) → j ≢ i → s'.table j ≡ s.table j)
          × (s'.current ≡ s.current))

  get-placed : (i : ℕ) → i < max_tasks → get (placed i).table (created i).id ≡ some i
  get-placed i h =
      let (st, own, gen) = created-fields i in
      let at : (placed i).table i ≡ created i = ground arith in
      (get_iff (placed i).table (created i).id i).1 (h, rw at own, rw at (ground arith))

  placed-Creates :
      (i : ℕ)
      → i < max_tasks
      → is_vacant (s.table i).state ≡ true
      → ((j : ℕ) → 0 ≤ j → j < i → is_vacant (s.table j).state ≡ false)
      → Creates (some i, placed i)
  placed-Creates i h vacant first =
      let (st, own, gen) = created-fields i in
      let at : (placed i).table i ≡ created i = ground arith in
      inr (
        i,
        refl,
        h,
        vacant,
        λ j hj. first j (omega arith) hj,
        at,
        ap (λ t. t.state) at ∙ st,
        ap (λ t. get (placed i).table t.id) at ∙ get-placed i h,
        λ j ne. ground arith,
        refl,
      )

  -- In a valid table, `lettuce_task_create` returns no task and changes nothing, with all 16 tasks
  -- living; or it takes the first vacant slot, whose task is then ready and found under its
  -- identifier, and changes no other. The table stays valid.
  pub create-Creates :
      IsValid s
      → Creates (create s service_id domain_id entry_pc stack_top name)
        × IsValid (create s service_id domain_id entry_pc stack_top name).1
  create-Creates v = elim (find_vacant_lem s.table max_tasks 0) [
    | inl (e, all) ↦
        rw (create-none e) (inl (refl, refl, λ j h. all j (omega arith) (omega arith)), v)
    | inr (i, e, lo, hi, vacant, first) ↦
        rw (create-some i e)
          (placed-Creates i (omega arith) vacant first, placed-IsValid i v (omega arith) vacant)
  ]
