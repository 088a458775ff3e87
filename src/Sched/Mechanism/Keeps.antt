-- ===== src/Sched/Mechanism/Keeps.antt =====
-- kernel/scheduler/: what the policies and the wake-up leave of a task as it was.
use lettuce_os.Base.{
  ℕ, zero, suc, ◌+◌, ◌≡◌, inl, inr, refl, ◌∙◌, Bool, true, false, ◌&&◌, Option, none, some, arith,
  leb, ltb, if◌then◌else◌, Bool-cases, Option-cases,
}
use lettuce_os.Task.Table.{Task, TaskState, is_ready, is_running, is_sleeping, max_tasks, ready}
use lettuce_os.Sched.State.{Sched, rr, eevdf, task_at, set_task, scan}
use lettuce_os.Sched.RoundRobin
use lettuce_os.Sched.Eevdf
use lettuce_os.Sched.Eevdf.{Search}
use lettuce_os.Sched.Mechanism.{on_tick, pick_next, on_task_ready, wake_slot, wake_slots}

-- Two records of a task agree on the saved registers and on who it is, and one runs if the other does.
pub record SameTask (t u : Task) : Type 0 where
  pub running_eq : is_running u.state ≡ is_running t.state
  pub context_eq : u.context ≡ t.context
  pub service_eq : u.service_id ≡ t.service_id
  pub domain_eq : u.domain_id ≡ t.domain_id

-- A state has the same current task as before, and the same tasks but for what policies decide.
pub record Keeps (s s' : Sched) : Type 0 where
  pub current_eq : s'.tasks.current ≡ s.tasks.current
  pub mmu_eq : s'.mmu ≡ s.mmu
  pub tasks_eq : (j : ℕ) → SameTask (task_at s j) (task_at s' j)

pub Keeps-refl : (s : Sched) → Keeps s s
Keeps-refl s = record {
  current_eq = refl;
  mmu_eq = refl;
  tasks_eq =
      λ j. record { running_eq = refl; context_eq = refl; service_eq = refl; domain_eq = refl };
}

pub Keeps-trans : {s t u : Sched} → Keeps s t → Keeps t u → Keeps s u
Keeps-trans a b = record {
  current_eq = b.current_eq ∙ a.current_eq;
  mmu_eq = b.mmu_eq ∙ a.mmu_eq;
  tasks_eq = λ j. record {
    running_eq = (b.tasks_eq j).running_eq ∙ (a.tasks_eq j).running_eq;
    context_eq = (b.tasks_eq j).context_eq ∙ (a.tasks_eq j).context_eq;
    service_eq = (b.tasks_eq j).service_eq ∙ (a.tasks_eq j).service_eq;
    domain_eq = (b.tasks_eq j).domain_eq ∙ (a.tasks_eq j).domain_eq;
  };
}

set_task-Keeps :
    (s : Sched) (i : ℕ) (t : Task)
    → is_running t.state ≡ is_running (task_at s i).state
    → t.context ≡ (task_at s i).context
    → t.service_id ≡ (task_at s i).service_id
    → t.domain_id ≡ (task_at s i).domain_id
    → Keeps s (set_task s i t)
set_task-Keeps s i t state context service domain = record {
  current_eq = refl;
  mmu_eq = refl;
  tasks_eq = λ j. record {
    running_eq = ground (arith, state);
    context_eq = ground (arith, context);
    service_eq = ground (arith, service);
    domain_eq = ground (arith, domain);
  };
}

if-Keeps : {s a b : Sched} (c : Bool) → Keeps s a → Keeps s b → Keeps s (if c then a else b)
if-Keeps true x y = x
if-Keeps false x y = y

rr_on_tick-Keeps : (s : Sched) (c : Option ℕ) (delta : ℕ) → Keeps s (RoundRobin.on_tick s c delta)
unfolding RoundRobin.on_tick
rr_on_tick-Keeps s none delta = Keeps-refl s
rr_on_tick-Keeps s (some i) delta =
    if-Keeps (is_running (task_at s i).state) (set_task-Keeps s i _ refl refl refl refl)
      (Keeps-refl s)

keep_if-Keeps :
    (s : Sched) (picked : Option ℕ × Sched) (c : Bool)
    → Keeps s picked.1
    → Keeps s (if c then picked else (none, s)).1
keep_if-Keeps s picked true k = k
keep_if-Keeps s picked false k = Keeps-refl s

-- Counters of the policies that a task's record does not hold
counter-Keeps : (s : Sched) (last v : ℕ) → Keeps s (record s { rr_last_idx = last; vsys = v })
counter-Keeps s last v = record {
  current_eq = refl;
  mmu_eq = refl;
  tasks_eq = (Keeps-refl s).tasks_eq;
}

rr_renew-Keeps : (s : Sched) (i : ℕ) → Keeps s (RoundRobin.renew s i)
unfolding RoundRobin.renew
rr_renew-Keeps s i = set_task-Keeps s i _ refl refl refl refl

rr_keep_current-Keeps : (s : Sched) (c : Option ℕ) → Keeps s (RoundRobin.keep_current s c).1
unfolding RoundRobin.keep_current
rr_keep_current-Keeps s none = Keeps-refl s
rr_keep_current-Keeps s (some i) =
    keep_if-Keeps s _ (is_running (task_at s i).state) (rr_renew-Keeps s i)

rr_pick_next-Keeps : (s : Sched) (c : Option ℕ) → Keeps s (RoundRobin.pick_next s c).1
unfolding RoundRobin.pick_next RoundRobin.take
rr_pick_next-Keeps s c =
    elim (Option-cases (RoundRobin.next_ready s max_tasks (RoundRobin.start_offset c))) [
      | inl nothing ↦ rw (nothing, RoundRobin.pick_next) (rr_keep_current-Keeps s c)
      | inr (i, found) ↦
          rw (found, RoundRobin.pick_next)
            (Keeps-trans (counter-Keeps s i s.vsys)
              (rr_renew-Keeps (record s { rr_last_idx = i }) i))
    ]

eevdf_on_tick-Keeps : (s : Sched) (c : Option ℕ) (delta : ℕ) → Keeps s (Eevdf.on_tick s c delta)
unfolding Eevdf.on_tick
eevdf_on_tick-Keeps s none delta = Keeps-refl s
eevdf_on_tick-Keeps s (some i) delta =
    if-Keeps (is_running (task_at s i).state)
      (Keeps-trans (set_task-Keeps s i _ refl refl refl refl) (counter-Keeps _ s.rr_last_idx _))
      (Keeps-refl s)

align-Keeps : (s : Sched) (c : Option ℕ) → Keeps s (Eevdf.align s c)
unfolding Eevdf.align
align-Keeps s none = Keeps-refl s
align-Keeps s (some i) = set_task-Keeps s i _ refl refl refl refl

choose-Keeps : (s : Sched) (i : ℕ) → Keeps s (Eevdf.choose s i).1
unfolding Eevdf.choose
choose-Keeps s i = set_task-Keeps s i _ refl refl refl refl

consider-Keeps : (q : Search) (i : ℕ) → Keeps q.sched (Eevdf.consider q i).sched
unfolding Eevdf.consider
consider-Keeps q i =
    if-Keeps (leb (task_at q.sched i).vruntime q.sched.vsys)
      (set_task-Keeps q.sched i _ refl refl refl refl) (Keeps-refl q.sched)

visit-Keeps : (q : Search) (slot : ℕ) → Keeps q.sched (Eevdf.visit q slot).sched
unfolding Eevdf.visit
visit-Keeps q slot = elim (Option-cases (scan q.sched.tasks.table slot)) [
  | inl nothing ↦ rw (nothing, Eevdf.visit) (Keeps-refl q.sched)
  | inr (i, found) ↦ elim (Bool-cases (is_ready (task_at q.sched i).state)) [
    | inl e ↦ rw (found, e, Eevdf.visit) (consider-Keeps q i)
    | inr e ↦ rw (found, e, Eevdf.visit) (Keeps-refl q.sched)
  ]
]

search_slots-Keeps : (q : Search) (n slot : ℕ) → Keeps q.sched (Eevdf.search_slots q n slot).sched
unfolding Eevdf.search_slots
search_slots-Keeps q zero slot = Keeps-refl q.sched
search_slots-Keeps q (suc n) slot =
    Keeps-trans (visit-Keeps q slot) (search_slots-Keeps (Eevdf.visit q slot) n (slot + 1))

eevdf_keep_current-Keeps : (s : Sched) (c : Option ℕ) → Keeps s (Eevdf.keep_current s c).1
unfolding Eevdf.keep_current
eevdf_keep_current-Keeps s none = Keeps-refl s
eevdf_keep_current-Keeps s (some i) =
    keep_if-Keeps s _ (is_running (task_at s i).state) (choose-Keeps s i)

conclude-Keeps : (q : Search) (c : Option ℕ) → Keeps q.sched (Eevdf.conclude q c).1
unfolding Eevdf.conclude
conclude-Keeps q c = elim (Option-cases q.best_eligible) [
  | inr (i, best) ↦ rw (best, Eevdf.conclude) (choose-Keeps q.sched i)
  | inl no_best ↦ elim (Option-cases q.min_vruntime_task) [
    | inl no_least ↦ rw (no_best, no_least, Eevdf.conclude) (eevdf_keep_current-Keeps q.sched c)
    | inr (i, least) ↦ elim (Bool-cases (ltb 0 q.ready_count)) [
      | inl yet ↦
          rw (no_best, least, yet, Eevdf.conclude)
            (Keeps-trans (counter-Keeps q.sched q.sched.rr_last_idx q.min_vruntime)
              (choose-Keeps (record (q.sched) { vsys = q.min_vruntime }) i))
      | inr never ↦ rw (no_best, least, never, Eevdf.conclude) (eevdf_keep_current-Keeps q.sched c)
    ]
  ]
]

eevdf_pick_next-Keeps : (s : Sched) (c : Option ℕ) → Keeps s (Eevdf.pick_next s c).1
unfolding Eevdf.pick_next Eevdf.start
eevdf_pick_next-Keeps s c =
    let q = Eevdf.search_slots (Eevdf.start s) max_tasks 0 in
    Keeps-trans (search_slots-Keeps (Eevdf.start s) max_tasks 0) (conclude-Keeps q c)

-- The policy in use, whichever it is
pub on_tick-Keeps : (s : Sched) (c : Option ℕ) (delta : ℕ) → Keeps s (on_tick s c delta)
unfolding on_tick
on_tick-Keeps s c delta =
    elim s.policy
      as (λ p.
        Keeps s (elim p [ rr ↦ RoundRobin.on_tick s c delta | eevdf ↦ Eevdf.on_tick s c delta ])) [
          | rr ↦ rr_on_tick-Keeps s c delta
          | eevdf ↦ eevdf_on_tick-Keeps s c delta
        ]

pub pick_next-Keeps : (s : Sched) (c : Option ℕ) → Keeps s (pick_next s c).1
unfolding pick_next
pick_next-Keeps s c =
    elim s.policy
      as (λ p.
        Keeps s
          (elim p as (λ x. Option ℕ × Sched) [
            | rr ↦ RoundRobin.pick_next s c
            | eevdf ↦ Eevdf.pick_next s c
          ]).1) [ rr ↦ rr_pick_next-Keeps s c | eevdf ↦ eevdf_pick_next-Keeps s c ]

pub on_task_ready-Keeps : (s : Sched) (i : ℕ) → Keeps s (on_task_ready s i)
unfolding on_task_ready
on_task_ready-Keeps s i =
    elim s.policy as (λ p. Keeps s (elim p [ rr ↦ s | eevdf ↦ Eevdf.align s (some i) ])) [
      | rr ↦ Keeps-refl s
      | eevdf ↦ align-Keeps s (some i)
    ]

sleeping-rests : (t : TaskState) → is_sleeping t ≡ true → is_running t ≡ false
sleeping-rests t h = ground arith

wake_slot-Keeps : (s : Sched) (now slot : ℕ) → Keeps s (wake_slot s now slot)
unfolding wake_slot
wake_slot-Keeps s now slot = elim (Option-cases (scan s.tasks.table slot)) [
  | inl nothing ↦ rw (nothing, wake_slot) (Keeps-refl s)
  | inr (i, found) ↦
      let t = task_at s i in
      elim (Bool-cases (is_sleeping t.state && leb t.sleep_deadline_ticks now)) [
        | inl due ↦
            rw (found, due, wake_slot)
              (Keeps-trans
                (set_task-Keeps s i (record t { state = ready })
                  (let rests = sleeping-rests t.state (ground arith) in ground (arith, rests)) refl
                  refl refl)
                (on_task_ready-Keeps (set_task s i (record t { state = ready })) i))
        | inr later ↦ rw (found, later, wake_slot) (Keeps-refl s)
      ]
]

pub wake_slots-Keeps : (s : Sched) (now n slot : ℕ) → Keeps s (wake_slots s now n slot)
unfolding wake_slots
wake_slots-Keeps s now zero slot = Keeps-refl s
wake_slots-Keeps s now (suc n) slot =
    Keeps-trans (wake_slot-Keeps s now slot)
      (wake_slots-Keeps (wake_slot s now slot) now n (slot + 1))
