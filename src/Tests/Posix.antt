-- ===== src/Tests/Posix.antt =====
-- runtime/posix/ on the machine of Tests/Arch, with its descriptor table just set up.
use lettuce_os.Base.{
  update, ℕ, ◌+◌, ◌-◌, ◌*◌, ◌≤◌, ◌<◌, ◌≡◌, refl, none, some, [], ◌∷◌, fill, arith, ◌==◌,
  if◌then◌else◌, pos, neg, to_u64, to_i64, to_i32,
}
use lettuce_os.Arch.Machine.{Machine}
use lettuce_os.Arch.Syscall.{
  nanosleep, nanosleep_result, load_bytes, load_timespec, Counter, syscall,
}
use lettuce_os.Arch.Syscall.Laws.{after_svc}
use lettuce_os.Posix.Fd.{table_init, get, put_bytes, console_write_op, console_out_ops}
use lettuce_os.Posix.Sys.{
  sys_write, sys_clock_gettime, sys_nanosleep, delta_ticks, clock_monotonic, nanoseconds, find_op,
  transfer,
}
use lettuce_os.Posix.Calls.{sys_write_no}
use lettuce_os.Posix.Clock.{sys_clock_gettime_lem}
use lettuce_os.Arch.Mmu.{enter, init_roots, lookup}
use lettuce_os.Task.Table.{make_id}
use lettuce_os.Task.Table
use lettuce_os.Sched.State.{scan, scan_from, task_at}
use lettuce_os.Sched.RoundRobin
use lettuce_os.Sched.RoundRobin.{next_ready, take, renew}
use lettuce_os.Sched.Mechanism.{
  sleep_current, sleep_at, do_schedule, wake_slots, wake_slot, account, reschedule, dispatch,
  switch_to, count_switch, restore_context, pick_next, on_task_ready,
}
use lettuce_os.Tests.Arch.{machine, request}

abbrev counter : Counter
counter = record { ticks = 200000000; freq = 62500000 }

abbrev with_fds : Machine
with_fds = record machine { fds = table_init machine.fds }

-- "Hi" at the address 0x41000000
abbrev with_text : Machine
with_text = record with_fds {
  io = record { memory = λ a. if a == 0x41000000 then 72 else 105; console = 33 ∷ [] };
}

printed :
    (after_svc with_text request counter sys_write_no 1 0x41000000 2).io.console
    ≡ 33 ∷ 72 ∷ 105 ∷ []
unfolding syscall sys_write find_op get table_init transfer console_write_op put_bytes
    console_out_ops fill to_i32
printed = refl

sys_clock_gettime_lem_example :
    (s : ℕ) × (n : ℕ) × (sys_clock_gettime clock_monotonic 0x41000000 200000000 62500000
      ≡ (pos 0, some (record { tv_sec = pos s; tv_nsec = pos n })))
    × (n < nanoseconds)
    × (s * 62500000 ≤ 200000000)
    × (200000000 < s * 62500000 + 62500000)
    × (n * 62500000 ≤ (200000000 - s * 62500000) * nanoseconds)
    × ((200000000 - s * 62500000) * nanoseconds < n * 62500000 + 62500000)
sys_clock_gettime_lem_example =
    sys_clock_gettime_lem 0x41000000 200000000 62500000 (omega arith) (omega arith) (omega arith)
      (omega arith) refl

-- A range that ends in the kernel's image, but starts below it, passes the
-- pointer test, and with its bytes mapped, as they are in this model, it would go to the console.
range_into_kernel : (sys_write with_fds.fds (pos 1) 0x3fffffff 2 with_fds.io).0 ≡ pos 2
unfolding sys_write find_op get table_init transfer console_write_op console_out_ops fill to_i64
range_into_kernel = refl

-- The time span is read before its address is tested: what the error is depends on what the
-- kernel's memory holds there.
reads_kernel_memory :
    ((sys_nanosleep machine.sched 0x40001000
        (record { tv_sec = pos 0; tv_nsec = neg 1 })
        1000
        none).0
      ≡ neg 22)
    × ((sys_nanosleep machine.sched 0x40001000
          (record { tv_sec = pos 0; tv_nsec = pos 1 })
          1000
          none).0
        ≡ neg 14)
unfolding sys_nanosleep
reads_kernel_memory = (refl, refl)

-- A second task that is ready, with 77 in its register x0
abbrev other_ready : Machine
other_ready = record machine {
  sched = record (machine.sched) {
    tasks = record (machine.sched.tasks) {
      table = update machine.sched.tasks.table 1 (record (task_at machine.sched 1) {
        context = record ((task_at machine.sched 1).context) { x = λ r. 77 };
      });
    };
  };
  io = record { memory = λ a. 0; console = [] };
}

-- A call to sleep switches to that task, and writes its result, 0, over the task's register.
sleep_overwrites :
    let (m, f) = nanosleep other_ready (record request { x = λ r. 0x41000000 }) counter in
    (m.sched.tasks.current ≡ some 1)
    × ((task_at m.sched 1).context.x 0 ≡ 77)
    × (f.x 0 ≡ 0)
    × (f.x 1 ≡ 77)
unfolding nanosleep nanosleep_result load_timespec load_bytes sys_nanosleep delta_ticks to_u64
    to_i64 sleep_current sleep_at do_schedule wake_slots wake_slot account reschedule dispatch
    switch_to count_switch restore_context pick_next on_task_ready RoundRobin.pick_next next_ready
    take renew scan scan_from Table.get make_id enter fill init_roots lookup
sleep_overwrites = (refl, refl, refl, refl)
