-- ===== src/Sched/Mechanism/Solo.antt =====
-- kernel/scheduler/scheduler.c: no task but the current one runs.
use lettuce_os.Base.{
  ℕ, ◌+◌, ◌≡◌, inl, inr, sym, ap, subst, ◌∙◌, Bool, true, false, ◌&&◌, not, Option, none, some,
  arith, ltb, if◌then◌else◌, Bool-cases,
}
use lettuce_os.Task.Table.{is_ready, is_running, is_current, max_tasks, ready, sleeping}
use lettuce_os.Sched.State.{Sched, task_at, set_task, u64}
use lettuce_os.Sched.Mechanism.{
  TrapFrame, on_tick, pick_next, wake_slots, preempt, resume, count_switch, switch_to, stay,
  dispatch, reschedule, account, do_schedule, tick, sleep_at, sleep_current, yield_at, yield,
  save_context,
}
use lettuce_os.Sched.Mechanism.Keeps.{
  Keeps, on_tick-Keeps, pick_next-Keeps, on_task_ready-Keeps, wake_slots-Keeps,
}

-- A task that runs is the current one.
abbrev pub Solo : Sched → Type 0
Solo s = (j : ℕ) → is_running (task_at s j).state ≡ true → s.tasks.current ≡ some j

pub Keeps-Solo : {s s' : Sched} → Keeps s s' → Solo s → Solo s'
Keeps-Solo k v j h = k.current_eq ∙ v j (sym (k.tasks_eq j).running_eq ∙ h)

-- No task runs.
abbrev Idle : Sched → Type 0
Idle s = (j : ℕ) → is_running (task_at s j).state ≡ false

no_current-Idle : (s : Sched) → s.tasks.current ≡ none → Solo s → Idle s
no_current-Idle s e v j = ground (arith, e, v j)

resting-Idle :
    (s : Sched) (c : ℕ)
    → s.tasks.current ≡ some c
    → is_running (task_at s c).state ≡ false
    → Solo s
    → Idle s
resting-Idle s c e h v j = elim (Bool-cases (is_running (task_at s j).state)) [
  | inl runs ↦
      let current : c ≡ j = ground (arith, e, v j runs) in
      ap (λ k. is_running (task_at s k).state) (sym current) ∙ h
  | inr rests ↦ rests
]

resume-Solo : (s : Sched) (i : ℕ) → s.tasks.current ≡ some i → Solo s → Solo (resume s i)
unfolding resume
resume-Solo s i e v j h = ground (arith, e, v j, h)

stay-Solo : (s : Sched) (c : Option ℕ) → s.tasks.current ≡ c → Solo s → Solo (stay s c)
unfolding stay
stay-Solo s none e v = v
stay-Solo s (some c) e v = elim (Bool-cases (is_ready (task_at s c).state)) [
  | inl h ↦ rw (h, stay) (resume-Solo s c e v)
  | inr h ↦ rw (h, stay) v
]

-- A hand-over from a state in which no task runs
switch_to-Solo :
    (s : Sched) (c : Option ℕ) (i : ℕ) (f : TrapFrame) (p : Bool)
    → Idle s
    → Solo (switch_to s c i f p).0
unfolding switch_to count_switch
switch_to-Solo s c i f p rests j h = ground (arith, rests j, h)

dispatch-Solo :
    (pick : Option ℕ) (s : Sched) (c : Option ℕ) (f : TrapFrame) (p : Bool)
    → s.tasks.current ≡ c
    → Solo s
    → Idle s
    → Solo (dispatch (pick, s) c f p).0
unfolding dispatch
dispatch-Solo none s c f p e v rests = stay-Solo s c e v
dispatch-Solo (some i) s c f p e v rests = elim (Bool-cases (is_current c i)) [
  | inl same ↦ rw (same, dispatch) (resume-Solo s i (ground (arith, e, same)) v)
  | inr other ↦ rw (other, dispatch) (switch_to-Solo s c i f p rests)
]

-- From a state in which no task runs
reschedule-Solo :
    (s : Sched) (f : TrapFrame) (p : Bool)
    → Idle s
    → Solo s
    → Solo (reschedule s s.tasks.current f p).0
unfolding reschedule
reschedule-Solo s f p rests v =
    let k = pick_next-Keeps s s.tasks.current in
    let (pick, s') = pick_next s s.tasks.current in
    dispatch-Solo pick s' s.tasks.current f p k.current_eq (Keeps-Solo k v)
      (λ j. (k.tasks_eq j).running_eq ∙ rests j)

-- The current task made ready, with its registers saved
preempt-Solo :
    (s : Sched) (c : ℕ) (f : TrapFrame)
    → s.tasks.current ≡ some c
    → Solo s
    → ((preempt s c f).tasks.current ≡ some c) × Solo (preempt s c f) × Idle (preempt s c f)
unfolding preempt
preempt-Solo s c f e v =
    let t = record (task_at s c) {
      context = save_context f (task_at s c).context;
      state = ready;
    } in
    let k = on_task_ready-Keeps (set_task s c t) c in
    let solo : Solo (set_task s c t) = λ j h. ground (arith, v j, h) in
    let rests : is_running (task_at (set_task s c t) c).state ≡ false = ground arith in
    (
      k.current_eq ∙ e,
      Keeps-Solo k solo,
      λ j. (k.tasks_eq j).running_eq ∙ resting-Idle (set_task s c t) c e rests solo j,
    )

reschedule_at-Solo :
    (s : Sched) (c : Option ℕ) (f : TrapFrame) (p : Bool)
    → s.tasks.current ≡ c
    → Idle s
    → Solo s
    → Solo (reschedule s c f p).0
reschedule_at-Solo s c f p e rests v =
    subst (λ d. Solo (reschedule s d f p).0) e (reschedule-Solo s f p rests v)

account-Solo :
    (s : Sched) (c : Option ℕ) (f : TrapFrame) (p : Bool)
    → s.tasks.current ≡ c
    → Solo s
    → Solo (account s c f p).0
unfolding account
account-Solo s none f p e v = reschedule_at-Solo s none f p e (no_current-Idle s e v) v
account-Solo s (some c) f p e v =
    let k = on_tick-Keeps s (some c) 1 in
    let s' = on_tick s (some c) 1 in
    elim (Bool-cases (is_running (task_at s c).state)) [
      | inr rests ↦
          rw (rests, account) (reschedule_at-Solo s (some c) f p e (resting-Idle s c e rests v) v)
      | inl runs ↦ elim (Bool-cases (ltb 0 (task_at s' c).time_slice_ticks && p)) [
        | inl rest ↦ rw (runs, rest, account) (Keeps-Solo k v)
        | inr over ↦
            let (e', solo, idle) = preempt-Solo s' c f (k.current_eq ∙ e) (Keeps-Solo k v) in
            rw (runs, over, account) (reschedule_at-Solo (preempt s' c f) (some c) f p e' idle solo)
      ]
    ]

if-Solo :
    (c : Bool) (a b : Sched × Option TrapFrame) → Solo a.0 → Solo b.0 → Solo (if c then a else b).0
if-Solo true a b v w = v
if-Solo false a b v w = w

do_schedule-Solo :
    (s : Sched) (frame : Option TrapFrame) (p : Bool) → Solo s → Solo (do_schedule s frame p).0
unfolding do_schedule
do_schedule-Solo s none p v = v
do_schedule-Solo s (some f) p v =
    let k = wake_slots-Keeps s s.ticks max_tasks 0 in
    let woken = wake_slots s s.ticks max_tasks 0 in
    if-Solo (not s.is_active) (s, some f) _ v
      (account-Solo woken s.tasks.current f p k.current_eq (Keeps-Solo k v))

yield_at-Solo :
    (s : Sched) (c : Option ℕ) (frame : Option TrapFrame) → Solo s → Solo (yield_at s c frame).0
unfolding yield_at
yield_at-Solo s none frame v = v
yield_at-Solo s (some c) frame v =
    do_schedule-Solo (set_task s c (record (task_at s c) { time_slice_ticks = 0 })) frame false
      (λ j h. ground (arith, v j, h))

sleep_at-Solo :
    (s : Sched) (c : Option ℕ) (ticks : ℕ) (frame : Option TrapFrame)
    → Solo s
    → Solo (sleep_at s c ticks frame).0
unfolding sleep_at
sleep_at-Solo s none ticks frame v = v
sleep_at-Solo s (some c) ticks frame v =
    do_schedule-Solo
      (set_task s c
        (record (task_at s c) { sleep_deadline_ticks = u64 (s.ticks + ticks); state = sleeping }))
      frame false (λ j h. ground (arith, v j, h))

-- A tick, a yield and a call to sleep keep to it that no task but the current one runs.
pub tick-yield-sleep_current-Solo :
    (s : Sched) (ticks : ℕ) (frame : Option TrapFrame)
    → Solo s
    → Solo (tick s frame).0 × Solo (yield s frame).0 × Solo (sleep_current s ticks frame).0
unfolding tick yield sleep_current
tick-yield-sleep_current-Solo s ticks frame v = (
  do_schedule-Solo s frame true v,
  yield_at-Solo s s.tasks.current frame v,
  sleep_at-Solo s s.tasks.current ticks frame v,
)
