-- ===== src/Sched/Mechanism.antt =====
-- kernel/scheduler/scheduler.c, in the ARM64 build. That build's jump back into the kernel at the
-- preemption limit is in Arch.Exception. The build for a host has no translation state, and is the same
-- otherwise. The hooks on_task_sleep, on_task_block and on_task_exit do nothing in both policies.
pub mod Frame
pub mod Keeps
pub mod Solo
pub mod Switch
pub mod Preempt
pub mod Root
use lettuce_os.Base.{
  ℕ, zero, suc, ◌+◌, ◌%◌, ◌^◌, Bool, true, false, ◌&&◌, ◌||◌, not, Option, none, some, Table,
  update, fill, leb, ltb, ◌==◌, if◌then◌else◌,
}
use lettuce_os.Arch.Mmu.{enter}
use lettuce_os.Task.Table.{
  Task, Tasks, TaskContext, ready, running, sleeping, is_ready, is_running, is_sleeping, is_current,
  max_tasks, init_subsystem,
}
use lettuce_os.Sched.State.{Sched, PolicyType, rr, eevdf, task_at, set_task, scan, u64}
use lettuce_os.Sched.RoundRobin
use lettuce_os.Sched.Eevdf

-- `LettuceTrapFrame`: x0 to x29, and the saved special registers
pub record TrapFrame : Type 0 where
  pub x : Table ℕ
  pub lr : ℕ
  pub elr : ℕ
  pub spsr : ℕ
  pub sp_el0 : ℕ

-- The active policy's table of operations, `g_policy_ops`
unfoldable pub policy_init : Sched → Sched
policy_init s = elim s.policy [ rr ↦ RoundRobin.init s | eevdf ↦ Eevdf.init s ]

unfoldable pub on_tick : Sched → Option ℕ → ℕ → Sched
on_tick s current delta = elim s.policy [
  | rr ↦ RoundRobin.on_tick s current delta
  | eevdf ↦ Eevdf.on_tick s current delta
]

unfoldable pub pick_next : Sched → Option ℕ → Option ℕ × Sched
pick_next s current = elim s.policy [
  | rr ↦ RoundRobin.pick_next s current
  | eevdf ↦ Eevdf.pick_next s current
]

-- `on_task_ready` and `on_task_wake`
unfoldable pub on_task_ready : Sched → ℕ → Sched
on_task_ready s i = elim s.policy [ rr ↦ s | eevdf ↦ Eevdf.align s (some i) ]

unfoldable pub scheduler_init : Sched → Sched
scheduler_init s = policy_init (record s {
  tasks = init_subsystem s.tasks;
  is_active = false;
  switch_count = 0;
  preempt_count = 0;
  same_domain_switches = 0;
  cross_domain_switches = 0;
  preempt_limit = 0;
})

unfoldable pub start : Sched → Sched
start s = record s { is_active = true }

unfoldable pub stop : Sched → Sched
stop s = record s { is_active = false }

unfoldable pub set_policy : Sched → PolicyType → Sched
set_policy s p = policy_init (record s { policy = p })

unfoldable pub set_preempt_limit : Sched → ℕ → Sched
set_preempt_limit s max_preempts = record s { preempt_limit = max_preempts }

-- 1. The wake-up of the task that the scan sees in a slot
unfoldable pub wake_slot : Sched → ℕ → ℕ → Sched
wake_slot s now slot = elim (scan s.tasks.table slot) [
  | none ↦ s
  | some i ↦
      let t = task_at s i in
      if is_sleeping t.state && leb t.sleep_deadline_ticks now
      then on_task_ready (set_task s i (record t { state = ready })) i
      else s
]

-- The loop over the n slots from `slot` on
unfoldable pub wake_slots : Sched → ℕ → ℕ → ℕ → Sched
wake_slots s now zero slot = s
wake_slots s now (suc n) slot = wake_slots (wake_slot s now slot) now n (slot + 1)

-- The registers that a task is preempted with, saved in its record, and back
unfoldable pub save_context : TrapFrame → TaskContext → TaskContext
save_context f c = record {
  x = update (fill 30 (λ r v. f.x r) c.x) 30 f.lr;
  elr_el1 = f.elr;
  spsr_el1 = f.spsr;
  sp_el0 = f.sp_el0;
}

unfoldable pub restore_context : TaskContext → TrapFrame → TrapFrame
restore_context c f = record {
  x = fill 30 (λ r v. c.x r) f.x;
  lr = c.x 30;
  elr = c.elr_el1;
  spsr = c.spsr_el1;
  sp_el0 = c.sp_el0;
}

-- The current task at the end of its quantum, or yielding: saved, and ready
unfoldable pub preempt : Sched → ℕ → TrapFrame → Sched
preempt s c f =
    let t = task_at s c in
    on_task_ready (set_task s c (record t { context = save_context f t.context; state = ready })) c

-- The task goes on running, with a full quantum.
unfoldable pub resume : Sched → ℕ → Sched
resume s i =
    let t = task_at s i in
    set_task s i (record t { state = running; time_slice_ticks = t.quantum_ticks })

abbrev same_domain : Sched → Option ℕ → ℕ → Bool
same_domain s none i = false
same_domain s (some c) i = (task_at s i).domain_id == (task_at s c).domain_id

-- The counters of a switch, and the stop at the preemption limit
unfoldable pub count_switch : Sched → Bool → Bool → Sched
count_switch s same is_preemption =
    let preempts = u64 (s.preempt_count + 1) in
    let reached = ltb 0 s.preempt_limit && leb s.preempt_limit preempts in
    record s {
      same_domain_switches =
          if same then u64 (s.same_domain_switches + 1) else s.same_domain_switches;
      cross_domain_switches =
          if same then s.cross_domain_switches else u64 (s.cross_domain_switches + 1);
      switch_count = u64 (s.switch_count + 1);
      preempt_count = if is_preemption then preempts else s.preempt_count;
      is_active = if is_preemption && reached then false else s.is_active;
    }

-- 4. and 5. The hand-over to the task in slot i
unfoldable pub switch_to : Sched → Option ℕ → ℕ → TrapFrame → Bool → Sched × TrapFrame
switch_to s current i f is_preemption =
    let t = task_at s i in
    let same = same_domain s current i in
    let s' = count_switch s same is_preemption in
    let s'' = set_task s' i (record t { state = running }) in
    (
      record s'' {
        mmu = if same then s''.mmu else (enter s''.mmu t.domain_id).1;
        current_service = t.service_id;
        tasks = record (s''.tasks) { current = some i };
      },
      restore_context t.context f,
    )

-- The policy picks nothing.
unfoldable pub stay : Sched → Option ℕ → Sched
stay s none = s
stay s (some c) = if is_ready (task_at s c).state then resume s c else s

-- What follows the pick
unfoldable pub dispatch : Option ℕ × Sched → Option ℕ → TrapFrame → Bool → Sched × TrapFrame
dispatch (none, s) current f is_preemption = (stay s current, f)
dispatch (some i, s) current f is_preemption =
    if is_current current i then (resume s i, f) else switch_to s current i f is_preemption

-- 3. to 5.
unfoldable pub reschedule : Sched → Option ℕ → TrapFrame → Bool → Sched × TrapFrame
reschedule s current f is_preemption = dispatch (pick_next s current) current f is_preemption

-- 2. The current task's tick; `s` is the state after the wake-ups.
unfoldable pub account : Sched → Option ℕ → TrapFrame → Bool → Sched × TrapFrame
account s none f is_preemption = reschedule s none f is_preemption
account s (some c) f is_preemption =
    let s' = on_tick s (some c) 1 in
    if not (is_running (task_at s c).state)
    then reschedule s (some c) f is_preemption
    else if ltb 0 (task_at s' c).time_slice_ticks && is_preemption
    then (s', f)
    else reschedule (preempt s' c f) (some c) f is_preemption

-- `do_schedule`; `none` is a NULL trap frame.
unfoldable pub do_schedule : Sched → Option TrapFrame → Bool → Sched × Option TrapFrame
do_schedule s none is_preemption = (s, none)
do_schedule s (some f) is_preemption =
    let woken = wake_slots s s.ticks max_tasks 0 in
    let (s', f') = account woken s.tasks.current f is_preemption in
    if not s.is_active then (s, some f) else (s', some f')

unfoldable pub tick : Sched → Option TrapFrame → Sched × Option TrapFrame
tick s frame = do_schedule s frame true

unfoldable pub sleep_at : Sched → Option ℕ → ℕ → Option TrapFrame → Sched × Option TrapFrame
sleep_at s none ticks frame = (s, frame)
sleep_at s (some c) ticks frame =
    let t = record (task_at s c) {
      sleep_deadline_ticks = u64 (s.ticks + ticks);
      state = sleeping;
    } in
    do_schedule (set_task s c t) frame false

-- `lettuce_scheduler_sleep_current`
unfoldable pub sleep_current : Sched → ℕ → Option TrapFrame → Sched × Option TrapFrame
sleep_current s ticks frame = sleep_at s s.tasks.current ticks frame

unfoldable pub yield_at : Sched → Option ℕ → Option TrapFrame → Sched × Option TrapFrame
yield_at s none frame = (s, frame)
yield_at s (some c) frame =
    do_schedule (set_task s c (record (task_at s c) { time_slice_ticks = 0 })) frame false

-- `lettuce_scheduler_yield`
unfoldable pub yield : Sched → Option TrapFrame → Sched × Option TrapFrame
yield s frame = yield_at s s.tasks.current frame
