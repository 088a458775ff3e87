-- ===== src/Sched/Mechanism/Root.antt =====
-- kernel/scheduler/scheduler.c: what a schedule does to the translation state, which it only touches by
-- entering the domain of the next task.
use lettuce_os.Base.{
  ℕ, inl, inr, sym, subst, Bool, true, false, ◌&&◌, not, Option, none, some, ltb, if◌then◌else◌,
  Bool-cases,
}
use lettuce_os.Arch.Mmu.{Mmu, enter}
use lettuce_os.Task.Table.{is_ready, is_running, is_current, max_tasks}
use lettuce_os.Sched.State.{Sched, task_at}
use lettuce_os.Sched.Mechanism.{
  TrapFrame, on_tick, pick_next, wake_slots, preempt, resume, count_switch, switch_to, stay,
  dispatch, reschedule, account, do_schedule, tick, sleep_at, sleep_current, yield_at, yield,
  same_domain,
}
use lettuce_os.Sched.Mechanism.Keeps.{
  Keeps, on_tick-Keeps, pick_next-Keeps, on_task_ready-Keeps, wake_slots-Keeps,
}

-- P holds of the translation state, and entering a domain keeps it.
module _ (P : Mmu → Type 0) (step : (m : Mmu) (domain : ℕ) → P m → P (enter m domain).1) where
  kept : {s s' : Sched} → Keeps s s' → P s.mmu → P s'.mmu
  kept k v = subst P (sym k.mmu_eq) v

  chosen : (c : Bool) (m n : Mmu) → P m → P n → P (if c then m else n)
  chosen true m n v w = v
  chosen false m n v w = w

  stay-kept : (s : Sched) (c : Option ℕ) → P s.mmu → P (stay s c).mmu
  unfolding stay resume
  stay-kept s none v = v
  stay-kept s (some c) v = elim (Bool-cases (is_ready (task_at s c).state)) [
    | inl h ↦ rw (h, stay) v
    | inr h ↦ rw (h, stay) v
  ]

  switch_to-kept :
      (s : Sched) (c : Option ℕ) (i : ℕ) (f : TrapFrame) (p : Bool)
      → P s.mmu
      → P (switch_to s c i f p).0.mmu
  unfolding switch_to count_switch
  switch_to-kept s c i f p v =
      chosen (same_domain s c i) s.mmu _ v (step s.mmu (task_at s i).domain_id v)

  dispatch-kept :
      (pick : Option ℕ) (s : Sched) (c : Option ℕ) (f : TrapFrame) (p : Bool)
      → P s.mmu
      → P (dispatch (pick, s) c f p).0.mmu
  unfolding dispatch resume
  dispatch-kept none s c f p v = stay-kept s c v
  dispatch-kept (some i) s c f p v = elim (Bool-cases (is_current c i)) [
    | inl same ↦ rw (same, dispatch) v
    | inr other ↦ rw (other, dispatch) (switch_to-kept s c i f p v)
  ]

  reschedule-kept :
      (s : Sched) (c : Option ℕ) (f : TrapFrame) (p : Bool) → P s.mmu → P (reschedule s c f p).0.mmu
  unfolding reschedule
  reschedule-kept s c f p v =
      let (pick, s') = pick_next s c in dispatch-kept pick s' c f p (kept (pick_next-Keeps s c) v)

  preempt-kept : (s : Sched) (c : ℕ) (f : TrapFrame) → P s.mmu → P (preempt s c f).mmu
  unfolding preempt
  preempt-kept s c f v = kept (on_task_ready-Keeps _ c) v

  account-kept :
      (s : Sched) (c : Option ℕ) (f : TrapFrame) (p : Bool) → P s.mmu → P (account s c f p).0.mmu
  unfolding account
  account-kept s none f p v = reschedule-kept s none f p v
  account-kept s (some c) f p v =
      let w = kept (on_tick-Keeps s (some c) 1) v in
      let s' = on_tick s (some c) 1 in
      elim (Bool-cases (is_running (task_at s c).state)) [
        | inr rests ↦ rw (rests, account) (reschedule-kept s (some c) f p v)
        | inl runs ↦ elim (Bool-cases (ltb 0 (task_at s' c).time_slice_ticks && p)) [
          | inl rest ↦ rw (runs, rest, account) w
          | inr over ↦
              rw (runs, over, account)
                (reschedule-kept (preempt s' c f) (some c) f p (preempt-kept s' c f w))
        ]
      ]

  if-kept :
      (c : Bool) (a b : Sched × Option TrapFrame)
      → P a.0.mmu
      → P b.0.mmu
      → P (if c then a else b).0.mmu
  if-kept true a b v w = v
  if-kept false a b v w = w

  do_schedule-kept :
      (s : Sched) (frame : Option TrapFrame) (p : Bool) → P s.mmu → P (do_schedule s frame p).0.mmu
  unfolding do_schedule
  do_schedule-kept s none p v = v
  do_schedule-kept s (some f) p v =
      let woken = wake_slots s s.ticks max_tasks 0 in
      if-kept (not s.is_active) (s, some f) _ v
        (account-kept woken s.tasks.current f p (kept (wake_slots-Keeps s s.ticks max_tasks 0) v))

  yield_at-kept :
      (s : Sched) (c : Option ℕ) (frame : Option TrapFrame) → P s.mmu → P (yield_at s c frame).0.mmu
  unfolding yield_at
  yield_at-kept s none frame v = v
  yield_at-kept s (some c) frame v = do_schedule-kept _ frame false v

  sleep_at-kept :
      (s : Sched) (c : Option ℕ) (ticks : ℕ) (frame : Option TrapFrame)
      → P s.mmu
      → P (sleep_at s c ticks frame).0.mmu
  unfolding sleep_at
  sleep_at-kept s none ticks frame v = v
  sleep_at-kept s (some c) ticks frame v = do_schedule-kept _ frame false v

  -- A tick, a yield and a call to sleep keep it too.
  pub tick-kept : (s : Sched) (frame : Option TrapFrame) → P s.mmu → P (tick s frame).0.mmu
  unfolding tick
  tick-kept s frame v = do_schedule-kept s frame true v

  pub yield-kept : (s : Sched) (frame : Option TrapFrame) → P s.mmu → P (yield s frame).0.mmu
  unfolding yield
  yield-kept s frame v = yield_at-kept s s.tasks.current frame v

  pub sleep_current-kept :
      (s : Sched) (ticks : ℕ) (frame : Option TrapFrame)
      → P s.mmu
      → P (sleep_current s ticks frame).0.mmu
  unfolding sleep_current
  sleep_current-kept s ticks frame v = sleep_at-kept s s.tasks.current ticks frame v
