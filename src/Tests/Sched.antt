-- ===== src/Tests/Sched.antt =====
-- kernel/scheduler/ with a running task in slot 0, a ready one in slot 1, and a ready one in slot 2
-- whose generation is 11.
use lettuce_os.Base.{
  inl, inr, sym, ap, Bool-cases, ==→eq, ==→ne, ◌==◌, ℕ, ◌+◌, ◌*◌, ◌^◌, ◌<◌, ◌≡◌, ◌⊎◌, refl, true,
  false, Option, none, some, update, arith,
}
use lettuce_os.Arch.Mmu.{Mmu}
use lettuce_os.Task.Table.{Task, TaskState, running, ready, sleeping, get, make_id}
use lettuce_os.Sched.State.{Sched, rr, task_at, scan, scan_from}
use lettuce_os.Sched.RoundRobin
use lettuce_os.Sched.RoundRobin.{next_ready, take, renew, start_offset}
use lettuce_os.Sched.RoundRobin.Laws.{slots_before, pick_next_fair}
use lettuce_os.Sched.Eevdf
use lettuce_os.Sched.Eevdf.{
  calc_deadline, calc_vslice, weight_of, search_slots, start, visit, consider, conclude, choose,
  align,
}
use lettuce_os.Sched.Eevdf.Laws.Pick.{Picks, eevdf_pick_next_lem}
use lettuce_os.Sched.Mechanism.{
  TrapFrame, restore_context, sleep_current, sleep_at, do_schedule, wake_slots, wake_slot, account,
  save_context, reschedule, dispatch, switch_to, count_switch, pick_next, on_task_ready,
}
use lettuce_os.Sched.Mechanism.Solo.{Solo}
use lettuce_os.Sched.Mechanism.Switch.{context_at}
use lettuce_os.Sched.Mechanism.Preempt.{Preempts, SameRegisters, do_schedule-Preempts}
use lettuce_os.Tests.Task.{blank_task}

abbrev task : ℕ → ℕ → TaskState → ℕ → Task
task slot generation state vruntime = record blank_task {
  id = generation * 2 ^ 16 + slot;
  generation = generation;
  state = state;
  service_id = slot;
  weight = 1024;
  requested_slice_ticks = 5;
  quantum_ticks = 5;
  time_slice_ticks = 1;
  vruntime = vruntime;
}

abbrev pub blank_mmu : Mmu
blank_mmu = record {
  domains = λ i. record { ttbr0_val = 0; l1_root = 4096 * (i + 1); asid = i + 1 };
  current_domain = 0;
  ttbr0 = 0;
  faults = record {
    expecting_fault = false;
    fault_observed = false;
    expected_far = 0;
    last_fault_far = 0;
    last_fault_esr = 0;
    last_fault_elr = 0;
    expecting_sysreg_trap = false;
    sysreg_trap_observed = false;
  };
}

abbrev pub three : Sched
three = record {
  tasks = record {
    table =
        update (update (update (λ i. blank_task) 0 (task 0 1 running 0)) 1 (task 1 1 ready 70000)) 2
          (task 2 11 ready 0);
    current = some 0;
  };
  rr_last_idx = 0;
  vsys = 65536;
  ticks = 0;
  current_service = 0;
  mmu = blank_mmu;
  is_active = true;
  switch_count = 0;
  preempt_count = 0;
  same_domain_switches = 0;
  cross_domain_switches = 0;
  preempt_limit = 0;
  policy = rr;
}

seen : scan three.tasks.table 1 ≡ some 1
unfolding scan scan_from get make_id
seen = refl

-- The ready task in slot 2 is not seen.
overlooked : scan three.tasks.table 2 ≡ none
unfolding scan scan_from get make_id
overlooked = refl

rr_picks : (RoundRobin.pick_next three (some 0)).0 ≡ some 1
unfolding RoundRobin.pick_next next_ready take renew scan scan_from get make_id
rr_picks = refl

eevdf_picks : (Eevdf.pick_next three (some 0)).0 ≡ some 1
unfolding Eevdf.pick_next search_slots start visit consider conclude choose calc_deadline
    calc_vslice scan scan_from get make_id
eevdf_picks = refl

-- Registers that are all 7
abbrev frame : TrapFrame
frame = record { x = λ r. 7; lr = 7; elr = 7; spsr = 7; sp_el0 = 7 }

abbrev slept : Sched × Option TrapFrame
slept = sleep_current three 100 (some frame)

-- The task that goes to sleep is switched away from, but its registers are not saved: its record
-- still holds the program counter 0, and not 7.
sleeper_not_saved :
    (slept.0.tasks.current ≡ some 1)
    × ((task_at slept.0 0).state ≡ sleeping)
    × ((task_at slept.0 0).context.elr_el1 ≡ 0)
unfolding sleep_current sleep_at do_schedule wake_slots wake_slot account reschedule dispatch
    switch_to count_switch restore_context pick_next on_task_ready RoundRobin.pick_next next_ready
    take renew scan scan_from get make_id
sleeper_not_saved = (refl, refl, refl)

pick_next_fair_example :
    let (picked, s') = RoundRobin.pick_next three (some 0) in
    (picked ≡ some 1) ⊎ ((i : ℕ) × (picked ≡ some i) × (slots_before s' 1 < slots_before three 1))
pick_next_fair_example = pick_next_fair three 0 1 (omega arith) (omega arith) refl

eevdf_pick_next_lem_example : Picks three (some 0) (Eevdf.pick_next three (some 0))
eevdf_pick_next_lem_example = eevdf_pick_next_lem three (some 0)

pub three-Solo : Solo three
three-Solo j h = elim (Bool-cases (j == 0)) [
  | inl here ↦ ap some (sym (==→eq j 0 here))
  | inr away ↦ absurd (let ne = ==→ne j 0 away in ground (arith, h))
]

do_schedule-Preempts_example :
    (g : TrapFrame) × ((do_schedule three (some frame) true).1 ≡ some g)
    × Preempts three 0 frame (do_schedule three (some frame) true).0 g
    × ((h : TrapFrame)
        → SameRegisters frame (restore_context (save_context frame (context_at three 0)) h))
do_schedule-Preempts_example = do_schedule-Preempts three 0 frame true refl refl refl
