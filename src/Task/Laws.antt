-- ===== src/Task/Laws.antt =====
-- kernel/main/task.c: task identifiers, and what creating and terminating a task change.
use lettuce_os.Base.{
  ℕ, zero, suc, ◌+◌, ◌%◌, ◌^◌, ◌≤◌, ◌<◌, ◌≡◌, ◌≢◌, refl, ap, ◌∙◌, ◌⊎◌, inl, inr, ◌↔◌, true, false,
  none, some, Table, arith, fill_lem, Option-cases, Bool-cases, lt→ltb, from_next,
}
use lettuce_os.Task.Table.{
  Task, Tasks, unused, is_vacant, is_unused, init_subsystem, empty_task, get, find_vacant, make_id,
  next_generation, max_tasks,
}

-- Generations are 16-bit and not 0; a task that lives has the identifier made of its generation and
-- its slot; and the current task is one that lives.
pub record IsValid (s : Tasks) : Type 0 where
  pub generation_pos : (i : ℕ) → i < max_tasks → 0 < (s.table i).generation
  pub generation_lt : (i : ℕ) → i < max_tasks → (s.table i).generation < 2 ^ 16
  pub own_id :
      (i : ℕ)
      → i < max_tasks
      → is_vacant (s.table i).state ≡ false
      → (s.table i).id ≡ make_id (s.table i).generation i
  pub current_lives :
      (i : ℕ) → s.current ≡ some i → (i < max_tasks) × (is_vacant (s.table i).state ≡ false)

-- `lettuce_task_get` finds exactly the task whose slot and generation the identifier names, unless
-- the slot was never used.
pub get_iff :
    (t : Table Task) (id i : ℕ)
    → (get t id ≡ some i)
      ↔ ((i < max_tasks) × (id ≡ make_id (t i).generation i) × (is_unused (t i).state ≡ false))
unfolding get make_id
get_iff t id i = (
  λ h.
      let at : (id % 2 ^ 16 ≡ i) × (i < max_tasks) = ground arith in
      ground (arith, ap (λ k. (t k).generation) at.0, ap (λ k. is_unused (t k).state) at.0),
  λ (lt, e, used). let at : id % 2 ^ 16 ≡ i = omega arith in rw at (ground arith),
)

-- The first vacant slot, if there is one
pub find_vacant_lem :
    (t : Table Task) (n i : ℕ)
    → ((find_vacant t n i ≡ none) × ((j : ℕ) → i ≤ j → j < i + n → is_vacant (t j).state ≡ false))
      ⊎ ((k : ℕ) × (find_vacant t n i ≡ some k)
          × (i ≤ k)
          × (k < i + n)
          × (is_vacant (t k).state ≡ true)
          × ((j : ℕ) → i ≤ j → j < k → is_vacant (t j).state ≡ false))
unfolding find_vacant
find_vacant_lem t zero i = inl (refl, λ j lo hi. absurd (omega arith))
find_vacant_lem t (suc n) i = elim (Bool-cases (is_vacant (t i).state)) [
  | inl here ↦ inr (i, rw here, omega arith, omega arith, here, λ j lo hi. absurd (omega arith))
  | inr taken ↦ elim (find_vacant_lem t n (i + 1)) [
    | inl (e, all) ↦ inl (
      rw taken e,
      λ j lo hi.
          from_next (λ k. is_vacant (t k).state ≡ false) i j taken (λ lo'. all j lo' (omega arith))
            lo,
    )
    | inr (k, e, lo, hi, vacant, first) ↦ inr (
      k,
      rw taken e,
      omega arith,
      omega arith,
      vacant,
      λ j lo' hi'.
          from_next (λ k. is_vacant (t k).state ≡ false) i j taken (λ l. first j l hi') lo',
    )
  ]
]

pub next_generation_lem :
    (g : ℕ)
    → (0 < next_generation g) × (next_generation g < 2 ^ 16) × (g < 2 ^ 16 → next_generation g ≢ g)
unfolding next_generation
next_generation_lem g = (ground arith, ground arith, λ h. ground arith)

-- `lettuce_task_init_subsystem` establishes the invariant, with no task that an identifier finds.
pub init-IsValid :
    (s : Tasks) → IsValid (init_subsystem s) × ((id : ℕ) → get (init_subsystem s).table id ≡ none)
init-IsValid s = (valid, nothing)
  where
    at : (i : ℕ) → i < max_tasks → (init_subsystem s).table i ≡ empty_task (s.table i)
    at i h = unfold init_subsystem in rw (fill_lem max_tasks _ s.table i, lt→ltb i max_tasks h)

    unused_now : (i : ℕ) → i < max_tasks → ((init_subsystem s).table i).state ≡ unused
    unused_now i h = ap (λ t. t.state) (at i h) ∙ (unfold empty_task in refl)

    vacant : (i : ℕ) → i < max_tasks → is_vacant ((init_subsystem s).table i).state ≡ true
    vacant i h = ap (λ k. is_vacant k) (unused_now i h)

    valid : IsValid (init_subsystem s)
    valid = record {
      generation_pos = λ i h. rw (at i h) (unfold empty_task in omega arith);
      generation_lt = λ i h. rw (at i h) (unfold empty_task in omega arith);
      own_id = λ i h on. absurd (cc (vacant i h, on));
      current_lives = λ i e. absurd (unfold init_subsystem in cc e);
    }

    nothing : (id : ℕ) → get (init_subsystem s).table id ≡ none
    nothing id = elim (Option-cases (get (init_subsystem s).table id)) [
      | inl e ↦ e
      | inr (i, e) ↦
          let (lt, _, used) = (get_iff (init_subsystem s).table id i).0 e in
          absurd (ground (arith, unused_now i lt))
    ]
