-- ===== src/Sched/Eevdf/Laws/Pick.antt =====
-- kernel/scheduler/eevdf.c: the task that `eevdf_pick_next` picks, and what it leaves alone.
use lettuce_os.Base.{
  ℕ, ◌≤◌, ◌<◌, ◌≡◌, refl, ◌∙◌, subst, ◌⊎◌, inl, inr, true, Option, none, some, arith, Bool-cases,
}
use lettuce_os.Task.Table.{max_tasks, is_running}
use lettuce_os.Sched.State.{Sched, task_at}
use lettuce_os.Sched.Eevdf.{
  Search, search_slots, start, u64_max, conclude, choose, keep_current, pick_next,
}
use lettuce_os.Sched.Eevdf.Laws.Search.{
  can_run, is_entitled, deadline_at, Best, Least, Knows, searched,
}

module _ (s : Sched) where
  -- The task i is entitled to run, and none that is entitled has an earlier deadline.
  abbrev pub IsEarliest : ℕ → Type 0
  IsEarliest i =
      (i < max_tasks)
      × (is_entitled s i ≡ true)
      × ((j : ℕ) → j < max_tasks → is_entitled s j ≡ true → deadline_at s i ≤ deadline_at s j)

  -- The task i can run, and none that can has a smaller virtual runtime.
  abbrev pub IsLowest : ℕ → Type 0
  IsLowest i =
      (i < max_tasks)
      × (can_run (task_at s i) ≡ true)
      × ((j : ℕ)
          → j < max_tasks
          → can_run (task_at s j) ≡ true
          → (task_at s i).vruntime ≤ (task_at s j).vruntime)

  -- What a pick may be, with the state it leaves
  abbrev pub Picks : Option ℕ → Option ℕ × Sched → Type 0
  Picks current (picked, s') =
      ((i : ℕ) × IsEarliest i × (picked ≡ some i) × (s'.vsys ≡ s.vsys))
      ⊎ ((((j : ℕ) → j < max_tasks → is_entitled s j ≡ true → u64_max ≤ deadline_at s j)
            × ((i : ℕ) × IsLowest i × (picked ≡ some i) × (s'.vsys ≡ (task_at s i).vruntime)))
          ⊎ (((j : ℕ)
                → j < max_tasks
                → can_run (task_at s j) ≡ true
                → u64_max ≤ (task_at s j).vruntime)
              × ((picked ≡ none)
                  ⊎ ((i : ℕ) × (current ≡ some i)
                      × (is_running (task_at s i).state ≡ true)
                      × (picked ≡ some i)))
              × (s'.vsys ≡ s.vsys)))

  keep_current-Keeps :
      (q : Sched) (current : Option ℕ)
      → let (picked, q') = keep_current q current in
        ((picked ≡ none)
          ⊎ ((i : ℕ) × (current ≡ some i)
              × (is_running (task_at q i).state ≡ true)
              × (picked ≡ some i)))
        × (q'.vsys ≡ q.vsys)
  unfolding keep_current choose
  keep_current-Keeps q none = (inl refl, refl)
  keep_current-Keeps q (some i) = elim (Bool-cases (is_running (task_at q i).state)) [
    | inl on ↦ (inr (i, refl, on, ground arith), ground arith)
    | inr off ↦ (inl (ground arith), ground arith)
  ]

  choose_lem : (q : Sched) (i : ℕ) → ((choose q i).0 ≡ some i) × ((choose q i).1.vsys ≡ q.vsys)
  unfolding choose
  choose_lem q i = (refl, refl)

  module _ (q : Search) (current : Option ℕ) where
    conclude-best : (i : ℕ) → q.best_eligible ≡ some i → conclude q current ≡ choose q.sched i
    unfolding conclude
    conclude-best i e = ground arith

    conclude-least :
        (i : ℕ)
        → q.best_eligible ≡ none
        → q.min_vruntime_task ≡ some i
        → 0 < q.ready_count
        → conclude q current ≡ choose (record (q.sched) { vsys = q.min_vruntime }) i
    unfolding conclude
    conclude-least i e f h = ground arith

    conclude-keep :
        q.best_eligible ≡ none
        → q.min_vruntime_task ≡ none
        → conclude q current ≡ keep_current q.sched current
    unfolding conclude
    conclude-keep e f = ground arith

    conclude-Picks :
        (best least : Option ℕ)
        → q.best_eligible ≡ best
        → q.min_vruntime_task ≡ least
        → Knows s max_tasks q
        → Picks current (conclude q current)
    conclude-Picks (some i) least eb el k =
        let (lt, on, _, _, first) = subst (λ o. Best s max_tasks o q.earliest_deadline) eb k.best in
        rw (conclude-best i eb) (
          inl
            (i, (lt, on, first), (choose_lem q.sched i).0, (choose_lem q.sched i).1 ∙ k.vsys_kept))
    conclude-Picks none (some i) eb el k =
        let (_, late) = subst (λ o. Best s max_tasks o q.earliest_deadline) eb k.best in
        let (lt, on, at, _, low) = subst (λ o. Least s max_tasks o q.min_vruntime) el k.least in
        let chosen = choose_lem (record (q.sched) { vsys = q.min_vruntime }) i in
        rw (conclude-least i eb el (k.counted i lt on))
          (inr (inl (late, (i, (lt, on, low), chosen.0, chosen.1 ∙ at))))
    conclude-Picks none none eb el k =
        let (_, late) = subst (λ o. Least s max_tasks o q.min_vruntime) el k.least in
        let (kept, vsys) = keep_current-Keeps q.sched current in
        rw (conclude-keep eb el) (inr (inr (late, still_running kept k, vsys ∙ k.vsys_kept)))
      where
        still_running :
            ((keep_current q.sched current).0 ≡ none)
              ⊎ ((i : ℕ) × (current ≡ some i)
                  × (is_running (task_at q.sched i).state ≡ true)
                  × ((keep_current q.sched current).0 ≡ some i))
            → Knows s max_tasks q
            → ((keep_current q.sched current).0 ≡ none)
              ⊎ ((i : ℕ) × (current ≡ some i)
                  × (is_running (task_at s i).state ≡ true)
                  × ((keep_current q.sched current).0 ≡ some i))
        still_running (inl e) k' = inl e
        still_running (inr (i, e, on, p)) k' = inr (i, e, ground (arith, k'.table_kept i), p)

  -- Among the tasks whose generation is from 1 to 10, which are those that the table scan sees,
  -- `eevdf_pick_next` picks one with the earliest deadline of those that are ready and eligible. If none is so (or
  -- none has a deadline below the largest word), it picks one that is ready with the least virtual
  -- runtime and sets the system's virtual time to that. If none is ready either (or none has a
  -- runtime below the largest word), it keeps the current task if that is
  -- running, and else picks nothing.
  pub eevdf_pick_next_lem : (current : Option ℕ) → Picks current (pick_next s current)
  unfolding pick_next
  eevdf_pick_next_lem current =
      conclude-Picks (search_slots (start s) max_tasks 0) current _ _ refl refl (searched s)
