-- ===== src/Sched/RoundRobin.antt =====
-- kernel/scheduler/rr.c. The hooks on_task_ready, on_task_sleep, on_task_wake, on_task_block and
-- on_task_exit of this policy do nothing.
pub mod Laws
use lettuce_os.Base.{
  ℕ, zero, suc, ◌+◌, ◌-◌, ◌%◌, Bool, true, false, Option, none, some, leb, if◌then◌else◌,
}
use lettuce_os.Task.Table.{Task, max_tasks, is_ready, is_running}
use lettuce_os.Sched.State.{Sched, task_at, set_task, scan, u64}

unfoldable pub init : Sched → Sched
init s = record s { rr_last_idx = 0 }

-- The remaining slice after some ticks, not below 0
abbrev pub spend : ℕ → ℕ → ℕ
spend slice delta = if leb delta slice then slice - delta else 0

-- `rr_on_tick`; the current task is a slot, `none` for NULL.
unfoldable pub on_tick : Sched → Option ℕ → ℕ → Sched
on_tick s none delta = s
on_tick s (some i) delta =
    let t = task_at s i in
    if is_running t.state
    then set_task s i (record t {
      total_ticks_run = u64 (t.total_ticks_run + delta);
      time_slice_ticks = spend t.time_slice_ticks delta;
    })
    else s

-- The circular scan: the slots last + i, …, round the table, for n more values of i
unfoldable pub next_ready : Sched → ℕ → ℕ → Option ℕ
next_ready s zero i = none
next_ready s (suc n) i =
    let rest = next_ready s n (i + 1) in
    elim (scan s.tasks.table ((s.rr_last_idx + i) % max_tasks)) [
      | none ↦ rest
      | some j ↦ if is_ready (task_at s j).state then some j else rest
    ]

-- The task given a full quantum
unfoldable pub renew : Sched → ℕ → Sched
renew s i = set_task s i (record (task_at s i) { time_slice_ticks = (task_at s i).quantum_ticks })

-- `g_rr_last_idx = candidate; t->time_slice_ticks = t->quantum_ticks; return t;`
unfoldable pub take : Sched → ℕ → Option ℕ × Sched
take s i = (some i, renew (record s { rr_last_idx = i }) i)

unfoldable pub keep_current : Sched → Option ℕ → Option ℕ × Sched
keep_current s none = (none, s)
keep_current s (some i) = if is_running (task_at s i).state then (some i, renew s i) else (none, s)

abbrev pub start_offset : Option ℕ → ℕ
start_offset none = 0
start_offset (some i) = 1

-- `rr_pick_next`: the task, and the state that the call leaves
unfoldable pub pick_next : Sched → Option ℕ → Option ℕ × Sched
pick_next s current = elim (next_ready s max_tasks (start_offset current)) [
  | none ↦ keep_current s current
  | some i ↦ take s i
]
