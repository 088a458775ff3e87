-- ===== src/Tests/Task.antt =====
-- kernel/main/task.c at a table with one task, number 65536.
use lettuce_os.Base.{ℕ, ◌≡◌, ◌≢◌, ◌⊎◌, refl, none, some, fill}
use lettuce_os.Task.Table.{
  Task, Tasks, TaskContext, unused, terminated, init_subsystem, empty_task, create, find_vacant,
  get, terminate,
}
use lettuce_os.Task.Laws.{IsValid, init-IsValid}
use lettuce_os.Task.Create.{Creates, create-Creates}
use lettuce_os.Task.Terminate.{terminate_lem}

abbrev pub blank_context : TaskContext
blank_context = record { x = λ r. 0; sp_el0 = 0; elr_el1 = 0; spsr_el1 = 0 }

abbrev pub blank_task : Task
blank_task = record {
  id = 0;
  generation = 0;
  priority = 0;
  service_id = 0;
  domain_id = 0;
  state = unused;
  weight = 0;
  requested_slice_ticks = 0;
  time_slice_ticks = 0;
  quantum_ticks = 0;
  vruntime = 0;
  vdeadline = 0;
  sleep_deadline_ticks = 0;
  total_ticks_run = 0;
  stack_base = 0;
  stack_size = 0;
  name = 0;
  context = blank_context;
}

abbrev blank : Tasks
blank = record { table = λ i. blank_task; current = none }

abbrev empty : Tasks
empty = init_subsystem blank

empty-IsValid : IsValid empty
empty-IsValid = (init-IsValid blank).0

-- A task of service 1 in domain 1, entered at 4096 with its stack at 8192
abbrev one : Tasks
one = (create empty 1 1 4096 8192 0).1

one-IsValid : IsValid one
one-IsValid = (create-Creates empty 1 1 4096 8192 0 empty-IsValid).1

first_slot : (create empty 1 1 4096 8192 0).0 ≡ some 0
unfolding create find_vacant init_subsystem empty_task fill
first_slot = refl

create-Creates_example :
    Creates one 2 2 4096 8192 0 (create one 2 2 4096 8192 0)
    × IsValid (create one 2 2 4096 8192 0).1
create-Creates_example = create-Creates one 2 2 4096 8192 0 one-IsValid

terminate_lem_example :
    IsValid (terminate one 65536)
    × (((get one.table 65536 ≡ none) × (terminate one 65536 ≡ one))
        ⊎ ((i : ℕ) × (get one.table 65536 ≡ some i)
            × (((terminate one 65536).table i).state ≡ terminated)
            × ((terminate one 65536).current ≢ some i)
            × (get (terminate one 65536).table 65536 ≡ none)
            × ((service_id domain_id entry_pc stack_top name : ℕ)
                → get
                    (create
                      (terminate one 65536)
                      service_id
                      domain_id
                      entry_pc
                      stack_top
                      name).1.table
                    65536
                  ≡ none)
            × ((j : ℕ) → j ≢ i → (terminate one 65536).table j ≡ one.table j)))
terminate_lem_example = terminate_lem one 65536 one-IsValid
