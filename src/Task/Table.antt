-- ===== src/Task/Table.antt =====
-- kernel/main/task.c: the task records and the registry's operations.
use lettuce_os.Base.{
  ℕ, zero, suc, ◌+◌, ◌*◌, ◌/◌, ◌%◌, ◌^◌, Bool, true, false, ◌||◌, not, Option, none, some, Table,
  update, fill, ltb, leb, ◌==◌, ◌/=◌, if◌then◌else◌,
}

abbrev pub max_tasks : ℕ
max_tasks = 16

abbrev pub base_weight : ℕ
base_weight = 1024

abbrev pub default_slice : ℕ
default_slice = 5

-- `LettuceTaskState`
pub data TaskState : Type 0 where
  unused ready running sleeping blocked terminated : TaskState

abbrev pub is_unused : TaskState → Bool
is_unused unused = true
is_unused _ = false

abbrev pub is_ready : TaskState → Bool
is_ready ready = true
is_ready _ = false

abbrev pub is_running : TaskState → Bool
is_running running = true
is_running _ = false

abbrev pub is_sleeping : TaskState → Bool
is_sleeping sleeping = true
is_sleeping _ = false

abbrev pub is_terminated : TaskState → Bool
is_terminated terminated = true
is_terminated _ = false

-- A slot that `create` may take: `UNUSED` or `TERMINATED`
abbrev pub is_vacant : TaskState → Bool
is_vacant s = is_unused s || is_terminated s

-- `LettuceTaskContext`: x0 to x30, the user stack pointer and program counter, and the saved PSTATE
pub record TaskContext : Type 0 where
  pub x : Table ℕ
  pub sp_el0 : ℕ
  pub elr_el1 : ℕ
  pub spsr_el1 : ℕ

-- `LettuceTask`, without its padding
pub record Task : Type 0 where
  pub id : ℕ
  pub generation : ℕ
  pub priority : ℕ
  pub service_id : ℕ
  pub domain_id : ℕ
  pub state : TaskState
  pub weight : ℕ
  pub requested_slice_ticks : ℕ
  pub time_slice_ticks : ℕ
  pub quantum_ticks : ℕ
  pub vruntime : ℕ
  pub vdeadline : ℕ
  pub sleep_deadline_ticks : ℕ
  pub total_ticks_run : ℕ
  pub stack_base : ℕ
  pub stack_size : ℕ
  pub name : ℕ
  pub context : TaskContext

-- `g_task_table` and `g_current_task`
pub record Tasks : Type 0 where
  pub table : Table Task
  pub current : Option ℕ

abbrev pub register_count : ℕ
register_count = 31

-- The context with every register 0, and the given stack pointer and program counter
unfoldable pub fresh_context : TaskContext → ℕ → ℕ → TaskContext
fresh_context c stack_top entry_pc = record {
  x = fill register_count (λ r v. 0) c.x;
  sp_el0 = stack_top;
  elr_el1 = entry_pc;
  spsr_el1 = 0;
}

-- What `init_subsystem` writes into a slot
unfoldable pub empty_task : Task → Task
empty_task t = record {
  id = 0;
  generation = 1;
  priority = 0;
  service_id = 0;
  domain_id = 0;
  state = unused;
  weight = base_weight;
  requested_slice_ticks = default_slice;
  time_slice_ticks = 0;
  quantum_ticks = default_slice;
  vruntime = 0;
  vdeadline = 0;
  sleep_deadline_ticks = 0;
  total_ticks_run = 0;
  stack_base = 0;
  stack_size = 0;
  name = 0;
  context = fresh_context t.context 0 0;
}

unfoldable pub init_subsystem : Tasks → Tasks
init_subsystem s = record { table = fill max_tasks (λ i t. empty_task t) s.table; current = none }

-- `gen << 16 | i`: a slot is below 16, so the halves do not overlap.
unfoldable pub make_id : ℕ → ℕ → ℕ
make_id generation slot = generation * 2 ^ 16 + slot

abbrev pub non_zero : ℕ → ℕ
non_zero g = if g == 0 then 1 else g

-- What `create` writes into the slot i
unfoldable pub new_task : Task → ℕ → ℕ → ℕ → ℕ → ℕ → ℕ → Task
new_task t i service_id domain_id entry_pc stack_top name = record t {
  generation = non_zero t.generation;
  id = make_id (non_zero t.generation) i;
  service_id = service_id;
  domain_id = domain_id;
  priority = 0;
  state = ready;
  weight = base_weight;
  requested_slice_ticks = default_slice;
  quantum_ticks = default_slice;
  time_slice_ticks = default_slice;
  vruntime = 0;
  vdeadline = 0;
  sleep_deadline_ticks = 0;
  total_ticks_run = 0;
  name = name;
  context = fresh_context t.context stack_top entry_pc;
}

-- The loop of `create`: the first vacant slot of the n from i on
unfoldable pub find_vacant : Table Task → ℕ → ℕ → Option ℕ
find_vacant t zero i = none
find_vacant t (suc n) i =
    let rest = find_vacant t n (i + 1) in if is_vacant (t i).state then some i else rest

unfoldable pub create : Tasks → ℕ → ℕ → ℕ → ℕ → ℕ → Option ℕ × Tasks
create s service_id domain_id entry_pc stack_top name = elim (find_vacant s.table max_tasks 0) [
  | none ↦ (none, s)
  | some i ↦ (
    some i,
    record s {
      table =
          update s.table i (new_task (s.table i) i service_id domain_id entry_pc stack_top name);
    },
  )
]

-- `lettuce_task_get`
unfoldable pub get : Table Task → ℕ → Option ℕ
get t id =
    let slot = id % 2 ^ 16 in
    let gen = id / 2 ^ 16 in
    if leb max_tasks slot
    then none
    else if (t slot).generation /= gen
    then none
    else if is_unused (t slot).state
    then none
    else some slot

unfoldable pub set_current : Tasks → Option ℕ → Tasks
set_current s task = record s { current = task }

-- `g_current_task == t`
abbrev pub is_current : Option ℕ → ℕ → Bool
is_current none i = false
is_current (some c) i = c == i

-- `t->generation++; if (t->generation == 0) t->generation = 1;`
unfoldable pub next_generation : ℕ → ℕ
next_generation g = non_zero ((g + 1) % 2 ^ 16)

unfoldable pub terminate : Tasks → ℕ → Tasks
terminate s id = elim (get s.table id) [
  | none ↦ s
  | some i ↦ record {
    table = update s.table i (record (s.table i) {
      state = terminated;
      generation = next_generation (s.table i).generation;
    });
    current = if is_current s.current i then none else s.current;
  }
]

-- The loop of `active_count` over the first n slots
unfoldable pub active_count_of : Table Task → ℕ → ℕ
active_count_of t zero = 0
active_count_of t (suc n) =
    let count = active_count_of t n in if not (is_vacant (t n).state) then count + 1 else count

unfoldable pub active_count : Tasks → ℕ
active_count s = active_count_of s.table max_tasks

abbrev pub max_weight : ℕ
max_weight = 10240

abbrev pub clamp_weight : ℕ → ℕ
clamp_weight w = if w == 0 then 1 else if ltb max_weight w then max_weight else w

-- `lettuce_task_set_weight`; `none` is a NULL task.
unfoldable pub set_weight : Tasks → Option ℕ → ℕ → Tasks
set_weight s none weight = s
set_weight s (some i) weight = record s {
  table = update s.table i (record (s.table i) { weight = clamp_weight weight });
}

unfoldable pub get_weight : Tasks → Option ℕ → ℕ
get_weight s none = base_weight
get_weight s (some i) = (s.table i).weight

unfoldable pub set_slice : Tasks → Option ℕ → ℕ → Tasks
set_slice s none slice_ticks = s
set_slice s (some i) slice_ticks = record s {
  table = update s.table i (record (s.table i) {
    requested_slice_ticks = non_zero slice_ticks;
    quantum_ticks = non_zero slice_ticks;
  });
}

unfoldable pub get_slice : Tasks → Option ℕ → ℕ
get_slice s none = default_slice
get_slice s (some i) = (s.table i).requested_slice_ticks
