-- ===== src/Sched/RoundRobin/Laws.antt =====
-- kernel/scheduler/rr.c: which task `rr_pick_next` picks, and that no ready task is passed over for
-- long.
use lettuce_os.Base.{
  ℕ, zero, suc, ◌+◌, ◌*◌, ltb, ==→eq, ◌-◌, ◌%◌, ◌≤◌, ◌<◌, ◌≡◌, refl, sym, ap, ◌∙◌, ◌⊎◌, inl, inr,
  Bool, true, false, ◌&&◌, Option, none, some, arith, if◌then◌else◌, Bool-cases, from_next, ◌==◌,
}
use lettuce_os.Task.Table.{Task, max_tasks, is_ready}
use lettuce_os.Sched.State.{Sched, task_at, scan_lem, is_seen}
use lettuce_os.Sched.RoundRobin.{next_ready, pick_next, take, keep_current, renew, start_offset}

-- A task that the policy may pick: it is ready, and the table scan sees it, that is, its slot was used
-- and its generation is from 1 to 10.
abbrev pub can_run : Task → Bool
can_run t = is_seen t && is_ready t.state

-- The slot at an offset from the last one picked, round the table
abbrev pub slot_after : Sched → ℕ → ℕ
slot_after s i = (s.rr_last_idx + i) % max_tasks

module _ (s : Sched) where
  next_ready-suc :
      (n i : ℕ)
      → next_ready s (suc n) i ≡ (
          if can_run (task_at s (slot_after s i))
          then some (slot_after s i)
          else next_ready s n (i + 1))
  unfolding next_ready
  next_ready-suc n i = ground (arith, scan_lem s.tasks.table (slot_after s i) (omega arith))

  next_ready_lem :
      (n i : ℕ)
      → ((next_ready s n i ≡ none)
          × ((k : ℕ) → i ≤ k → k < i + n → can_run (task_at s (slot_after s k)) ≡ false))
        ⊎ ((k : ℕ) × (next_ready s n i ≡ some (slot_after s k))
            × (i ≤ k)
            × (k < i + n)
            × (can_run (task_at s (slot_after s k)) ≡ true)
            × ((m : ℕ) → i ≤ m → m < k → can_run (task_at s (slot_after s m)) ≡ false))
  next_ready_lem zero i = inl (unfold next_ready in refl, λ k lo hi. absurd (omega arith))
  next_ready_lem (suc n) i = elim (Bool-cases (can_run (task_at s (slot_after s i)))) [
    | inl here ↦ inr (
      i,
      next_ready-suc n i ∙ rw here,
      omega arith,
      omega arith,
      here,
      λ m lo hi. absurd (omega arith),
    )
    | inr busy ↦ elim (next_ready_lem n (i + 1)) [
      | inl (e, all) ↦
          inl (
            next_ready-suc n i ∙ rw busy e,
            λ k lo hi. later busy k (λ l. all k l (omega arith)) lo,
          )
      | inr (k, e, lo, hi, runs, first) ↦ inr (
        k,
        next_ready-suc n i ∙ rw busy e,
        omega arith,
        omega arith,
        runs,
        λ m lo' hi'. later busy m (λ l. first m l hi') lo',
      )
    ]
  ]
    where
      later :
          can_run (task_at s (slot_after s i)) ≡ false
          → (k : ℕ) → (i + 1 ≤ k → can_run (task_at s (slot_after s k)) ≡ false)
          → i ≤ k
          → can_run (task_at s (slot_after s k)) ≡ false
      later busy k = from_next (λ j. can_run (task_at s (slot_after s j)) ≡ false) i k busy

  -- Every slot is reached within one round.
  slot_reached :
      (off j : ℕ)
      → s.rr_last_idx < max_tasks
      → off ≤ 1
      → j < max_tasks
      → (k : ℕ) × (off ≤ k) × (k < off + max_tasks) × (slot_after s k ≡ j)
  slot_reached off j hl ho hj = (
    off + (j + max_tasks + max_tasks - s.rr_last_idx - off) % max_tasks,
    omega arith,
    omega arith,
    omega arith,
  )

  pick_next-none :
      (current : Option ℕ)
      → next_ready s max_tasks (start_offset current) ≡ none
      → pick_next s current ≡ keep_current s current
  unfolding pick_next
  pick_next-none current e = rw (e, pick_next)

  pick_next-some :
      (current : Option ℕ) (i : ℕ)
      → next_ready s max_tasks (start_offset current) ≡ some i
      → pick_next s current ≡ take s i
  unfolding pick_next
  pick_next-some current i e = rw (e, pick_next)

  start_offset-le : (current : Option ℕ) → start_offset current ≤ 1
  start_offset-le none = omega arith
  start_offset-le (some i) = omega arith

  -- `rr_pick_next` picks the first task in circular order that can run, from the slot behind the
  -- last one picked if there is a current task, and from that slot itself if not; it makes the pick
  -- the last one, with a full quantum. If no task in the table can run, the current task is kept
  -- when it is running, with a full quantum, and else nothing is picked.
  pub rr_pick_next_lem :
      (current : Option ℕ)
      → s.rr_last_idx < max_tasks
      → (((j : ℕ) → j < max_tasks → can_run (task_at s j) ≡ false)
          × (pick_next s current ≡ keep_current s current))
        ⊎ ((k : ℕ) × (start_offset current ≤ k)
            × (k < start_offset current + max_tasks)
            × (can_run (task_at s (slot_after s k)) ≡ true)
            × ((m : ℕ)
                → start_offset current ≤ m
                → m < k
                → can_run (task_at s (slot_after s m)) ≡ false)
            × (pick_next s current ≡ take s (slot_after s k)))
  rr_pick_next_lem current hl = elim (next_ready_lem max_tasks (start_offset current)) [
    | inl (e, all) ↦ inl (λ j hj. nobody all j hj, pick_next-none current e)
    | inr (k, e, lo, hi, runs, first) ↦
        inr (k, lo, hi, runs, first, pick_next-some current (slot_after s k) e)
  ]
    where
      nobody :
          ((k : ℕ)
            → start_offset current ≤ k
            → k < start_offset current + max_tasks
            → can_run (task_at s (slot_after s k)) ≡ false)
          → (j : ℕ) → j < max_tasks
          → can_run (task_at s j) ≡ false
      nobody all j hj =
          let (k, lo, hi, e) =
            slot_reached (start_offset current) j hl (start_offset-le current) hj in
          ap (λ i. can_run (task_at s i)) (sym e) ∙ all k lo hi

-- How many slots stand between the last one picked and the slot j
abbrev pub slots_before : Sched → ℕ → ℕ
slots_before s j = (j + 2 * max_tasks - 1 - s.rr_last_idx) % max_tasks

take_lem : (s : Sched) (i : ℕ) → ((take s i).0 ≡ some i) × ((take s i).1.rr_last_idx ≡ i)
unfolding take renew
take_lem s i = (refl, refl)

-- For a task that is ready and whose generation is from 1 to 10, which are those that the table scan
-- sees, a pick next to a current task takes that task, or takes one that stands before it in circular
-- order, and then fewer slots stand before it.
pub pick_next_fair :
    (s : Sched) (c j : ℕ)
    → s.rr_last_idx < max_tasks
    → j < max_tasks
    → can_run (task_at s j) ≡ true
    → let (picked, s') = pick_next s (some c) in
      (picked ≡ some j) ⊎ ((i : ℕ) × (picked ≡ some i) × (slots_before s' j < slots_before s j))
pick_next_fair s c j hl hj runs = elim (rr_pick_next_lem s (some c) hl) [
  | inl (nobody, _) ↦ absurd (cc (nobody j hj, runs))
  | inr (k, lo, hi, runs', first, e) ↦
      let (picked, last) = take_lem s (slot_after s k) in
      let (k', lo', hi', at) = slot_reached s 1 j hl (omega arith) hj in
      let behind : k ≤ k' = not_before k' k first lo' (ap (λ i. can_run (task_at s i)) at ∙ runs) in
      rw e (elim (Bool-cases (k == k')) [
        | inl here ↦ inl (picked ∙ ap some (ap (slot_after s) (==→eq k k' here) ∙ at))
        | inr earlier ↦
            inr (slot_after s k, picked, omega (arith, last, closer k k' lo (ground arith) hi' at))
      ])
]
  where
    not_before :
        (k' k : ℕ)
        → ((m : ℕ) → 1 ≤ m → m < k → can_run (task_at s (slot_after s m)) ≡ false)
        → 1 ≤ k'
        → can_run (task_at s (slot_after s k')) ≡ true
        → k ≤ k'
    not_before k' k first lo' on = elim (Bool-cases (ltb k' k)) [
      | inl lt ↦ absurd (cc (first k' lo' (ground arith), on))
      | inr ge ↦ ground arith
    ]

    closer :
        (k k' : ℕ)
        → 1 ≤ k
        → k < k'
        → k' < 1 + max_tasks
        → slot_after s k' ≡ j
        → (j + 2 * max_tasks - 1 - slot_after s k) % max_tasks < slots_before s j
    closer k k' lo lt hi at = omega arith
