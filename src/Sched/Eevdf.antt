-- ===== src/Sched/Eevdf.antt =====
-- kernel/scheduler/eevdf.c, in fixed-point arithmetic on 64-bit words. The hooks on_task_sleep,
-- on_task_block and on_task_exit of this policy do nothing.
pub mod Laws
use lettuce_os.Base.{
  ℕ, zero, suc, ◌+◌, ◌-◌, ◌*◌, ◌/◌, ◌%◌, ◌^◌, Bool, true, false, not, ◌&&◌, ◌||◌, Option, none,
  some, leb, ltb, ◌==◌, if◌then◌else◌,
}
use lettuce_os.Task.Table.{Task, max_tasks, base_weight, default_slice, is_ready, is_running}
use lettuce_os.Sched.State.{Sched, task_at, set_task, scan, u64}

abbrev pub scale : ℕ
scale = 65536

abbrev pub u64_max : ℕ
u64_max = 2 ^ 64 - 1

-- The weight that counts: 0 stands for the base weight.
abbrev pub weight_of : Task → ℕ
weight_of t = if ltb 0 t.weight then t.weight else base_weight

abbrev pub slice_of : Task → ℕ
slice_of t = if ltb 0 t.requested_slice_ticks then t.requested_slice_ticks else default_slice

-- `calc_vslice` of a task that is not NULL
unfoldable pub calc_vslice : Task → ℕ
calc_vslice t = u64 (slice_of t * scale) / weight_of t

-- `lettuce_eevdf_calc_deadline` of a task that is not NULL
unfoldable pub calc_deadline : Task → ℕ
unfolding calc_vslice
calc_deadline t = u64 (t.vruntime + calc_vslice t)

unfoldable pub is_eligible : Sched → Task → Bool
is_eligible s t = if not (is_ready t.state) then false else leb t.vruntime s.vsys

-- The loop of `get_active_weight_sum` over the n slots from `slot` on, in 32-bit arithmetic
unfoldable pub weight_sum : Sched → ℕ → ℕ → ℕ → ℕ
weight_sum s zero slot total = total
weight_sum s (suc n) slot total =
    let t = task_at s slot in
    let total' : ℕ = elim (scan s.tasks.table slot) [
      | none ↦ total
      | some i ↦
          if is_ready t.state || is_running t.state then (total + weight_of t) % 2 ^ 32 else total
    ] in
    weight_sum s n (slot + 1) total'

unfoldable pub active_weight_sum : Sched → ℕ
active_weight_sum s =
    let total = weight_sum s max_tasks 0 0 in if ltb 0 total then total else base_weight

unfoldable pub init : Sched → Sched
init s = record s { vsys = 0 }

-- `eevdf_on_tick`; the current task is a slot, `none` for NULL. The virtual time advances by the
-- weights as they are once the task's own fields are written, which changes no weight.
unfoldable pub on_tick : Sched → Option ℕ → ℕ → Sched
on_tick s none delta = s
on_tick s (some i) delta =
    let t = task_at s i in
    let s' = set_task s i (record t {
      total_ticks_run = u64 (t.total_ticks_run + delta);
      vruntime = u64 (t.vruntime + u64 (delta * scale) / weight_of t);
      time_slice_ticks = if leb delta t.time_slice_ticks then t.time_slice_ticks - delta else 0;
    }) in
    if is_running t.state
    then record s' { vsys = u64 (s.vsys + u64 (delta * scale) / active_weight_sum s') }
    else s

-- The local variables of `eevdf_pick_next`, and the state that its scan writes
pub record Search : Type 0 where
  pub sched : Sched
  pub best_eligible : Option ℕ
  pub earliest_deadline : ℕ
  pub min_vruntime_task : Option ℕ
  pub min_vruntime : ℕ
  pub ready_count : ℕ

-- The deadline computed if it is not yet: it lies before the virtual runtime.
abbrev pub with_deadline : Task → Task
with_deadline t = record t {
  vdeadline = if ltb t.vdeadline t.vruntime then calc_deadline t else t.vdeadline;
}

-- The loop's body for a ready task in slot i
unfoldable pub consider : Search → ℕ → Search
consider q i =
    let t = task_at q.sched i in
    let lower = ltb t.vruntime q.min_vruntime in
    let eligible = leb t.vruntime q.sched.vsys in
    let d = (with_deadline t).vdeadline in
    let earlier = eligible && ltb d q.earliest_deadline in
    record {
      sched = if eligible then set_task q.sched i (with_deadline t) else q.sched;
      best_eligible = if earlier then some i else q.best_eligible;
      earliest_deadline = if earlier then d else q.earliest_deadline;
      min_vruntime_task = if lower then some i else q.min_vruntime_task;
      min_vruntime = if lower then t.vruntime else q.min_vruntime;
      ready_count = q.ready_count + 1;
    }

-- The loop's body for a slot
unfoldable pub visit : Search → ℕ → Search
visit q slot = elim (scan q.sched.tasks.table slot) [
  | none ↦ q
  | some i ↦ if is_ready (task_at q.sched i).state then consider q i else q
]

-- The loop over the n slots from `slot` on
unfoldable pub search_slots : Search → ℕ → ℕ → Search
search_slots q zero slot = q
search_slots q (suc n) slot = search_slots (visit q slot) n (slot + 1)

unfoldable pub start : Sched → Search
start s = record {
  sched = s;
  best_eligible = none;
  earliest_deadline = u64_max;
  min_vruntime_task = none;
  min_vruntime = u64_max;
  ready_count = 0;
}

-- A task is chosen: it gets a new slice and a new deadline.
unfoldable pub choose : Sched → ℕ → Option ℕ × Sched
choose s i =
    let t = task_at s i in
    (
      some i,
      set_task s i
          (record t { time_slice_ticks = t.requested_slice_ticks; vdeadline = calc_deadline t }),
    )

unfoldable pub keep_current : Sched → Option ℕ → Option ℕ × Sched
keep_current s none = (none, s)
keep_current s (some i) = if is_running (task_at s i).state then choose s i else (none, s)

-- The three ways to end the search
unfoldable pub conclude : Search → Option ℕ → Option ℕ × Sched
conclude q current = elim q.best_eligible [
  | some i ↦ choose q.sched i
  | none ↦ elim q.min_vruntime_task [
    | some i ↦
        if ltb 0 q.ready_count
        then choose (record (q.sched) { vsys = q.min_vruntime }) i
        else keep_current q.sched current
    | none ↦ keep_current q.sched current
  ]
]

-- `eevdf_pick_next`: the task, and the state that the call leaves
unfoldable pub pick_next : Sched → Option ℕ → Option ℕ × Sched
pick_next s current = conclude (search_slots (start s) max_tasks 0) current

-- `eevdf_on_task_ready` and `eevdf_on_task_wake`, which do the same
unfoldable pub align : Sched → Option ℕ → Sched
align s none = s
align s (some i) =
    let t = task_at s i in
    let t' = record t { vruntime = if ltb t.vruntime s.vsys then s.vsys else t.vruntime } in
    set_task s i (record t' { vdeadline = calc_deadline t' })
