-- ===== src/Sched/Mechanism/Preempt.antt =====
-- kernel/scheduler/scheduler.c: what a schedule does when the current task runs.
use lettuce_os.Base.{
  ℕ, ◌≡◌, ◌≢◌, ◌⊎◌, inl, inr, refl, sym, ap, subst, ◌∙◌, Bool, true, ◌&&◌, not, Option, some, arith,
  fill, fill_lem, update, ◌<◌, ltb, ◌==◌, if◌then◌else◌, Bool-cases,
}
use lettuce_os.Task.Table.{TaskContext, is_running, max_tasks, ready}
use lettuce_os.Sched.State.{Sched, task_at, set_task}
use lettuce_os.Sched.Mechanism.{
  TrapFrame, on_tick, wake_slots, preempt, reschedule, account, do_schedule, save_context,
  restore_context,
}
use lettuce_os.Sched.Mechanism.Keeps.{Keeps, on_tick-Keeps, on_task_ready-Keeps, wake_slots-Keeps}
use lettuce_os.Sched.Mechanism.Switch.{
  context_at, HandsOver, SameOthers, Keeps-SameOthers, Switches-SameOthers, reschedule-Switches,
}

-- The registers after the current task c is preempted with the frame f
abbrev Saves : Sched → ℕ → TrapFrame → Sched → Type 0
Saves s c f s' =
    (j : ℕ) → context_at s' j ≡ (if j == c then save_context f (context_at s c) else context_at s j)

preempt-Saves : (s : Sched) (c : ℕ) (f : TrapFrame) → Saves s c f (preempt s c f)
unfolding preempt
preempt-Saves s c f j =
    let t = record (task_at s c) {
      context = save_context f (task_at s c).context;
      state = ready;
    } in
    ((on_task_ready-Keeps (set_task s c t) c).tasks_eq j).context_eq ∙ ground arith

preempt-SameOthers : (s : Sched) (c : ℕ) (f : TrapFrame) → SameOthers s (preempt s c f) c
unfolding preempt
preempt-SameOthers s c f =
    let t = record (task_at s c) {
      context = save_context f (task_at s c).context;
      state = ready;
    } in
    let k = on_task_ready-Keeps (set_task s c t) c in
    record {
      same_mmu = k.mmu_eq;
      same_context = λ j ne. (k.tasks_eq j).context_eq ∙ ground (arith, ne);
      same_service = λ j. (k.tasks_eq j).service_eq ∙ ground arith;
      same_domain = λ j. (k.tasks_eq j).domain_eq ∙ ground arith;
    }

-- From a state in which the current task c runs, a schedule goes on with c, or saves its registers
-- and hands over; the other tasks keep their saved registers.
abbrev pub Preempts : Sched → ℕ → TrapFrame → Sched → TrapFrame → Type 0
Preempts s c f s' g =
    (((s'.tasks.current ≡ some c) × (g ≡ f))
      ⊎ ((i : ℕ) × HandsOver s c i f s' g × (context_at s' c ≡ save_context f (context_at s c))))
    × ((j : ℕ) → j ≢ c → context_at s' j ≡ context_at s j)

Preempts-Keeps :
    {s t s' : Sched} {f g : TrapFrame} (c : ℕ)
    → Keeps s t
    → Preempts t c f s' g
    → Preempts s c f s' g
Preempts-Keeps {s} {t} {s'} {f} {g} c k (way, kept) =
    (back way, λ j ne. kept j ne ∙ (k.tasks_eq j).context_eq)
  where
    back :
        ((s'.tasks.current ≡ some c) × (g ≡ f))
          ⊎ ((i : ℕ) × HandsOver t c i f s' g × (context_at s' c ≡ save_context f (context_at t c)))
        → ((s'.tasks.current ≡ some c) × (g ≡ f))
          ⊎ ((i : ℕ) × HandsOver s c i f s' g × (context_at s' c ≡ save_context f (context_at s c)))
    back (inl x) = inl x
    back (inr (i, h, saved)) = elim (Switches-SameOthers c (Keeps-SameOthers c k) (inr (i, h))) [
      | inl x ↦ inl x
      | inr (l, h') ↦ inr (l, h', saved ∙ ap (save_context f) (k.tasks_eq c).context_eq)
    ]

over-Preempts :
    (s : Sched) (c : ℕ) (f : TrapFrame) (p : Bool)
    → s.tasks.current ≡ some c
    → let (s', g) = reschedule (preempt s c f) (some c) f p in Preempts s c f s' g
over-Preempts s c f p e =
    let t = preempt s c f in
    let (switches, kept) = reschedule-Switches t c f p (current ∙ e) in
    let saves = preempt-Saves s c f in
    (
      elim (Switches-SameOthers c (preempt-SameOthers s c f) switches) [
        | inl x ↦ inl x
        | inr (i, h) ↦ inr (i, h, kept c ∙ saves c ∙ ground arith)
      ],
      λ j ne. kept j ∙ saves j ∙ ground (arith, ne),
    )
  where
    current : (preempt s c f).tasks.current ≡ s.tasks.current
    current = unfold preempt in (on_task_ready-Keeps _ c).current_eq

account-Preempts :
    (s : Sched) (c : ℕ) (f : TrapFrame) (p : Bool)
    → s.tasks.current ≡ some c
    → is_running (task_at s c).state ≡ true
    → let (s', g) = account s (some c) f p in Preempts s c f s' g
unfolding account
account-Preempts s c f p e runs =
    let k = on_tick-Keeps s (some c) 1 in
    let s' = on_tick s (some c) 1 in
    elim (Bool-cases (ltb 0 (task_at s' c).time_slice_ticks && p)) [
      | inl rest ↦
          rw (runs, rest, account) (inl (k.current_eq ∙ e, refl), λ j ne. (k.tasks_eq j).context_eq)
      | inr over ↦
          rw (runs, over, account) (Preempts-Keeps c k (over-Preempts s' c f p (k.current_eq ∙ e)))
    ]

do_schedule-account :
    (s : Sched) (c : Option ℕ) (f : TrapFrame) (p : Bool)
    → s.is_active ≡ true
    → s.tasks.current ≡ c
    → let (s', g) = account (wake_slots s s.ticks max_tasks 0) c f p in
      do_schedule s (some f) p ≡ (s', some g)
unfolding do_schedule
do_schedule-account s c f p active e =
    let run : Option ℕ → Sched × Option TrapFrame =
      λ d. let (s', g) = account (wake_slots s s.ticks max_tasks 0) d f p in (s', some g) in
    ap (λ b. if not b then (s, some f) else run s.tasks.current) active ∙ ap run e

-- Two frames have the same registers.
pub record SameRegisters (f g : TrapFrame) : Type 0 where
  pub x_eq : (r : ℕ) → r < 30 → g.x r ≡ f.x r
  pub lr_eq : g.lr ≡ f.lr
  pub elr_eq : g.elr ≡ f.elr
  pub spsr_eq : g.spsr ≡ f.spsr
  pub sp_el0_eq : g.sp_el0 ≡ f.sp_el0

-- Registers that were saved come back, whatever the record held and whatever frame they go into.
restore_context-save_context :
    (f : TrapFrame) (base : TaskContext) (h : TrapFrame)
    → SameRegisters f (restore_context (save_context f base) h)
unfolding restore_context save_context
restore_context-save_context f base h = record {
  x_eq = λ r lt. ground (
    arith,
    fill_lem 30 (λ k v. update (fill 30 (λ i w. f.x i) base.x) 30 f.lr k) h.x r,
    fill_lem 30 (λ i w. f.x i) base.x r,
  );
  lr_eq = ground arith;
  elr_eq = refl;
  spsr_eq = refl;
  sp_el0_eq = refl;
}

-- When the scheduler is active and the current task c runs, a schedule, preemptive or not, either
-- goes on with c and its registers, or hands over to another task i: i is current, the registers are
-- those restored from the record of i, the current service is that of i, the domain is entered if it
-- is not that of c, and the registers of c are saved in its record. Every task but c keeps its saved
-- registers. And registers that are saved and restored are the same: x0 to x29, the link register, the
-- program counter, the status word and the stack pointer.
pub do_schedule-Preempts :
    (s : Sched) (c : ℕ) (f : TrapFrame) (is_preemption : Bool)
    → s.is_active ≡ true
    → s.tasks.current ≡ some c
    → is_running (task_at s c).state ≡ true
    → (g : TrapFrame) × ((do_schedule s (some f) is_preemption).1 ≡ some g)
      × Preempts s c f (do_schedule s (some f) is_preemption).0 g
      × ((h : TrapFrame) → SameRegisters f (restore_context (save_context f (context_at s c)) h))
do_schedule-Preempts s c f p active e runs =
    let k = wake_slots-Keeps s s.ticks max_tasks 0 in
    let woken = wake_slots s s.ticks max_tasks 0 in
    let (s', g) = account woken (some c) f p in
    let done = do_schedule-account s (some c) f p active e in
    let inner : Preempts woken c f s' g =
      account-Preempts woken c f p (k.current_eq ∙ e) ((k.tasks_eq c).running_eq ∙ runs) in
    (
      g,
      ap (λ r. r.1) done,
      subst (λ r. Preempts s c f r.0 g) (sym done) (Preempts-Keeps c k inner),
      λ h. restore_context-save_context f (context_at s c) h,
    )
