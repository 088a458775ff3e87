-- ===== src/Sched/Eevdf/Laws/Search.antt =====
-- kernel/scheduler/eevdf.c: what the scan of `eevdf_pick_next` knows after some slots.
use lettuce_os.Base.{
  ℕ, zero, suc, ◌+◌, ◌<◌, ◌≡◌, refl, ap, ◌∙◌, subst, inl, inr, Bool, true, false, ◌&&◌, Option,
  some, arith, leb, ltb, if◌then◌else◌, Bool-cases, ◌==◌, ==→eq, ==→ne, IsLeast, IsLeast-step,
  IsLeast-skip, below_next,
}
use lettuce_os.Task.Table.{Task, max_tasks, is_ready}
use lettuce_os.Sched.State.{Sched, task_at, set_task, scan_lem, is_seen}
use lettuce_os.Sched.Eevdf.{Search, consider, visit, search_slots, start, with_deadline, u64_max}

-- A task that the policy may pick, and one that is entitled to run now
abbrev pub can_run : Task → Bool
can_run t = is_seen t && is_ready t.state

abbrev pub is_entitled : Sched → ℕ → Bool
is_entitled s j = can_run (task_at s j) && leb (task_at s j).vruntime s.vsys

-- The deadline by which an entitled task is compared
abbrev pub deadline_at : Sched → ℕ → ℕ
deadline_at s j = (with_deadline (task_at s j)).vdeadline

-- The best entitled task of the first n slots, if one has a deadline below the largest word
abbrev pub Best : Sched → ℕ → Option ℕ → ℕ → Type 0
Best s = IsLeast (is_entitled s) (deadline_at s) u64_max

-- The task of the first n slots that can run and has the least virtual runtime, if one has a
-- virtual runtime below the largest word
abbrev pub Least : Sched → ℕ → Option ℕ → ℕ → Type 0
Least s = IsLeast (λ j. can_run (task_at s j)) (λ j. (task_at s j).vruntime) u64_max

-- What the scan knows after the first n slots: it has given deadlines to the entitled tasks among
-- them and changed nothing else.
pub record Knows (s : Sched) (n : ℕ) (q : Search) : Type 0 where
  pub vsys_kept : q.sched.vsys ≡ s.vsys
  pub table_kept :
      (j : ℕ)
      → task_at q.sched j
        ≡ (if ltb j n && is_entitled s j then with_deadline (task_at s j) else task_at s j)
  pub best : Best s n q.best_eligible q.earliest_deadline
  pub least : Least s n q.min_vruntime_task q.min_vruntime
  pub counted : (j : ℕ) → j < n → can_run (task_at s j) ≡ true → 0 < q.ready_count

start-Knows : (s : Sched) → Knows s 0 (start s)
unfolding start
start-Knows s = record {
  vsys_kept = refl;
  table_kept = λ j. ground arith;
  best = (refl, λ j h e. absurd (omega arith));
  least = (refl, λ j h e. absurd (omega arith));
  counted = λ j h e. absurd (omega arith);
}

visit_lem :
    (q : Search) (i : ℕ)
    → i < max_tasks
    → visit q i ≡ (if can_run (task_at q.sched i) then consider q i else q)
unfolding visit
visit_lem q i h = ground (arith, scan_lem q.sched.tasks.table i h)

module _ (s : Sched) (n : ℕ) (q : Search) (k : Knows s n q) where
  -- The slot that is visited next is still as it was.
  next_kept : task_at q.sched n ≡ task_at s n
  next_kept = ground (arith, k.table_kept n)

  -- A round of the search for the earliest deadline, and one of that for the least runtime
  consider-best :
      can_run (task_at s n) ≡ true
      → let new = is_entitled s n && ltb (deadline_at s n) q.earliest_deadline in
        ((consider q n).best_eligible ≡ (if new then some n else q.best_eligible))
        × ((consider q n).earliest_deadline
            ≡ (if new then deadline_at s n else q.earliest_deadline))
  unfolding consider
  consider-best runs = rw (runs, next_kept, k.vsys_kept) (refl, refl)

  consider-least :
      can_run (task_at s n) ≡ true
      → let new = can_run (task_at s n) && ltb (task_at s n).vruntime q.min_vruntime in
        ((consider q n).min_vruntime_task ≡ (if new then some n else q.min_vruntime_task))
        × ((consider q n).min_vruntime ≡ (if new then (task_at s n).vruntime else q.min_vruntime))
  unfolding consider
  consider-least runs = rw (runs, next_kept) (refl, refl)

  consider-sched :
      can_run (task_at s n) ≡ true
      → (consider q n).sched
        ≡ (if is_entitled s n then set_task q.sched n (with_deadline (task_at s n)) else q.sched)
  unfolding consider
  consider-sched runs = rw (runs, next_kept, k.vsys_kept) refl

  considered :
      can_run (task_at s n) ≡ true
      → (j : ℕ)
      → task_at
          (if is_entitled s n then set_task q.sched n (with_deadline (task_at s n)) else q.sched)
          j
        ≡ (if ltb j (n + 1) && is_entitled s j then with_deadline (task_at s j) else task_at s j)
  considered runs j = elim (Bool-cases (j == n)) [
    | inl e ↦ rw (==→eq j n e) (ground (arith, next_kept))
    | inr ne ↦ ground (arith, k.table_kept j, ==→ne j n ne)
  ]

  skipped :
      can_run (task_at s n) ≡ false
      → (j : ℕ)
      → task_at q.sched j
        ≡ (if ltb j (n + 1) && is_entitled s j then with_deadline (task_at s j) else task_at s j)
  skipped busy j = elim (Bool-cases (j == n)) [
    | inl e ↦ rw (==→eq j n e) (ground (arith, next_kept))
    | inr ne ↦ ground (arith, k.table_kept j, ==→ne j n ne)
  ]

  consider-Knows : can_run (task_at s n) ≡ true → Knows s (n + 1) (consider q n)
  consider-Knows runs = record {
    vsys_kept = ap (λ x. x.vsys) (consider-sched runs) ∙ ground (arith, k.vsys_kept);
    table_kept = λ j. ap (λ x. task_at x j) (consider-sched runs) ∙ considered runs j;
    best =
        rw ((consider-best runs).0, (consider-best runs).1)
          (IsLeast-step (is_entitled s) (deadline_at s) u64_max n _ _ k.best);
    least =
        rw ((consider-least runs).0, (consider-least runs).1)
          (IsLeast-step (λ j. can_run (task_at s j)) (λ j. (task_at s j).vruntime) u64_max n _ _
            k.least);
    counted = λ j h e. unfold consider in omega arith;
  }

  skip-Knows : can_run (task_at s n) ≡ false → Knows s (n + 1) q
  skip-Knows busy = record {
    vsys_kept = k.vsys_kept;
    table_kept = skipped busy;
    best = IsLeast-skip (is_entitled s) (deadline_at s) u64_max n _ _ (ground arith) k.best;
    least =
        IsLeast-skip (λ j. can_run (task_at s j)) (λ j. (task_at s j).vruntime) u64_max n _ _
          (ground arith) k.least;
    counted = λ j.
        below_next (λ i. can_run (task_at s i) ≡ true → 0 < q.ready_count) n j
          (λ e. absurd (cc (e, busy))) (k.counted j);
  }

visit-Knows :
    (s : Sched) (n : ℕ) (q : Search) → n < max_tasks → Knows s n q → Knows s (n + 1) (visit q n)
visit-Knows s n q h k = elim (Bool-cases (can_run (task_at s n))) [
  | inl runs ↦ rw (visit_lem q n h, next_kept s n q k, runs) (consider-Knows s n q k runs)
  | inr busy ↦ rw (visit_lem q n h, next_kept s n q k, busy) (skip-Knows s n q k busy)
]

pub search_slots-Knows :
    (s : Sched) (m n : ℕ) (q : Search)
    → n + m ≡ max_tasks
    → Knows s n q
    → Knows s max_tasks (search_slots q m n)
unfolding search_slots
search_slots-Knows s zero n q e k = subst (λ i. Knows s i q) (omega arith) k
search_slots-Knows s (suc m) n q e k =
    search_slots-Knows s m (n + 1) (visit q n) (omega arith) (visit-Knows s n q (omega arith) k)

-- After the whole scan
pub searched : (s : Sched) → Knows s max_tasks (search_slots (start s) max_tasks 0)
searched s = search_slots-Knows s max_tasks 0 (start s) refl (start-Knows s)
