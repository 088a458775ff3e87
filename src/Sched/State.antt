-- ===== src/Sched/State.antt =====
-- The static variables of kernel/scheduler/ and the table scan that all its loops make.
use lettuce_os.Base.{
  ℕ, zero, suc, ◌+◌, ◌*◌, ◌%◌, ◌^◌, ◌<◌, ◌≡◌, Bool, Option, none, some, Table, update, arith,
  if◌then◌else◌, ◌&&◌, not, leb, ltb, ◌==◌, ◌/◌,
}
use lettuce_os.Arch.Mmu.{Mmu}
use lettuce_os.Task.Table.{Task, Tasks, get, make_id, max_tasks, is_unused}

-- `LettuceSchedPolicyType`
pub data PolicyType : Type 0 where
  rr eevdf : PolicyType

-- The tasks, `g_rr_last_idx` of rr.c, `g_eevdf_vsys` of eevdf.c, the tick counter of the timer, the
-- current service of context.c, the translation state of mmu.c, and the statics of scheduler.c
pub record Sched : Type 0 where
  pub tasks : Tasks
  pub rr_last_idx : ℕ
  pub vsys : ℕ
  pub ticks : ℕ
  pub current_service : ℕ
  pub mmu : Mmu
  pub is_active : Bool
  pub switch_count : ℕ
  pub preempt_count : ℕ
  pub same_domain_switches : ℕ
  pub cross_domain_switches : ℕ
  pub preempt_limit : ℕ
  pub policy : PolicyType

abbrev pub task_at : Sched → ℕ → Task
task_at s i = s.tasks.table i

-- Writes to the task in slot i through its pointer
abbrev pub set_task : Sched → ℕ → Task → Sched
set_task s i t = record s { tasks = record (s.tasks) { table = update s.tasks.table i t } }

abbrev pub u64 : ℕ → ℕ
u64 n = n % 2 ^ 64

-- `for (gen = 1; gen <= 10; ++gen) { t = lettuce_task_get(gen << 16 | slot); if (t != 0) … break; }`
-- over the n generations from gen on: the task that the loop body sees, if it sees one
unfoldable pub scan_from : Table Task → ℕ → ℕ → ℕ → Option ℕ
scan_from t slot zero gen = none
scan_from t slot (suc n) gen =
    let rest = scan_from t slot n (gen + 1) in
    elim (get t (make_id gen slot)) [ none ↦ rest | some i ↦ some i ]

-- The ten generations that every scan tries
abbrev pub scanned_generations : ℕ
scanned_generations = 10

unfoldable pub scan : Table Task → ℕ → Option ℕ
scan t slot = scan_from t slot scanned_generations 1

-- The slot was used, and its generation is one that a scan tries.
abbrev pub is_seen : Task → Bool
is_seen t = not (is_unused t.state) && (leb 1 t.generation && leb t.generation scanned_generations)

get-make_id :
    (t : Table Task) (gen slot : ℕ)
    → slot < max_tasks
    → get t (make_id gen slot)
      ≡ (if ((t slot).generation == gen) && not (is_unused (t slot).state) then some slot else none)
unfolding get make_id
get-make_id t gen slot h =
    let at : (gen * 2 ^ 16 + slot) % 2 ^ 16 ≡ slot = omega arith in
    let of : (gen * 2 ^ 16 + slot) / 2 ^ 16 ≡ gen = omega arith in rw (at, of) (ground arith)

scan_from_lem :
    (t : Table Task) (slot n gen : ℕ)
    → slot < max_tasks
    → scan_from t slot n gen ≡ (
        if not (is_unused (t slot).state)
          && (leb gen (t slot).generation && ltb (t slot).generation (gen + n))
        then some slot
        else none)
unfolding scan_from
scan_from_lem t slot zero gen h = ground arith
scan_from_lem t slot (suc n) gen h =
    ground (arith, get-make_id t gen slot h, scan_from_lem t slot n (gen + 1) h)

-- For a slot of the table, the scan over generations finds the task in it exactly when the slot was
-- used and the task's generation is from 1 to 10; a task of a later generation is never found.
pub scan_lem :
    (t : Table Task) (slot : ℕ)
    → slot < max_tasks
    → scan t slot ≡ (if is_seen (t slot) then some slot else none)
unfolding scan
scan_lem t slot h = ground (arith, scan_from_lem t slot scanned_generations 1 h)
