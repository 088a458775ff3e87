-- ===== src/Sched/Mechanism/Switch.antt =====
-- kernel/scheduler/scheduler.c: how the processor is handed from one task to another.
use lettuce_os.Base.{
  ℕ, ◌≡◌, ◌≢◌, ◌⊎◌, inl, inr, refl, sym, ap, subst, ◌∙◌, Bool, Option, none, some, arith, ◌==◌,
  ==→eq, ==→ne, if◌then◌else◌, Bool-cases,
}
use lettuce_os.Arch.Mmu.{enter}
use lettuce_os.Task.Table.{TaskContext}
use lettuce_os.Sched.State.{Sched, task_at}
use lettuce_os.Sched.Mechanism.{
  TrapFrame, pick_next, resume, count_switch, switch_to, stay, dispatch, reschedule,
  restore_context,
}
use lettuce_os.Sched.Mechanism.Keeps.{Keeps, pick_next-Keeps}

abbrev pub context_at : Sched → ℕ → TaskContext
context_at s j = (task_at s j).context

-- The processor is handed from task c to task i.
pub record HandsOver (s : Sched) (c i : ℕ) (f : TrapFrame) (s' : Sched) (g : TrapFrame)
    : Type 0 where
  pub other : i ≢ c
  pub current_eq : s'.tasks.current ≡ some i
  pub frame_eq : g ≡ restore_context (context_at s i) f
  pub service_eq : s'.current_service ≡ (task_at s i).service_id
  pub mmu_eq : s'.mmu ≡ (
      if (task_at s i).domain_id == (task_at s c).domain_id
      then s.mmu
      else (enter s.mmu (task_at s i).domain_id).1)

-- Task c goes on with its registers, or the processor is handed to another task.
abbrev pub Switches : Sched → ℕ → TrapFrame → Sched → TrapFrame → Type 0
Switches s c f s' g = ((s'.tasks.current ≡ some c) × (g ≡ f)) ⊎ ((i : ℕ) × HandsOver s c i f s' g)

module _ (s : Sched) (c : ℕ) (f : TrapFrame) (p : Bool) (e : s.tasks.current ≡ some c) where
  stay-Switches :
      Switches s c f (stay s (some c)) f
      × ((j : ℕ) → context_at (stay s (some c)) j ≡ context_at s j)
  unfolding stay resume
  stay-Switches = (inl (ground (arith, e), refl), λ j. ground arith)

  resume-Switches :
      Switches s c f (resume s c) f × ((j : ℕ) → context_at (resume s c) j ≡ context_at s j)
  unfolding resume
  resume-Switches = (inl (e, refl), λ j. ground arith)

  switch_to-Switches :
      (i : ℕ)
      → i ≢ c
      → let (s', g) = switch_to s (some c) i f p in
        Switches s c f s' g × ((j : ℕ) → context_at s' j ≡ context_at s j)
  unfolding switch_to count_switch
  switch_to-Switches i ne = (
    inr (
      i,
      record { other = ne; current_eq = refl; frame_eq = refl; service_eq = refl; mmu_eq = refl },
    ),
    λ j. ground arith,
  )

  dispatch-Switches :
      (pick : Option ℕ)
      → let (s', g) = dispatch (pick, s) (some c) f p in
        Switches s c f s' g × ((j : ℕ) → context_at s' j ≡ context_at s j)
  unfolding dispatch
  dispatch-Switches none = stay-Switches
  dispatch-Switches (some i) = elim (Bool-cases (c == i)) [
    | inl same ↦
        rw (same, dispatch)
          (subst
            (λ k.
              Switches s c f (resume s k) f
              × ((j : ℕ) → context_at (resume s k) j ≡ context_at s j))
            (==→eq c i same) resume-Switches)
    | inr other ↦ rw (other, dispatch) (switch_to-Switches i (λ q. ==→ne c i other (sym q)))
  ]

-- Two states have the same tasks, but for the registers of task c and what policies decide.
pub record SameOthers (s t : Sched) (c : ℕ) : Type 0 where
  pub same_mmu : t.mmu ≡ s.mmu
  pub same_context : (j : ℕ) → j ≢ c → context_at t j ≡ context_at s j
  pub same_service : (j : ℕ) → (task_at t j).service_id ≡ (task_at s j).service_id
  pub same_domain : (j : ℕ) → (task_at t j).domain_id ≡ (task_at s j).domain_id

pub Keeps-SameOthers : {s t : Sched} (c : ℕ) → Keeps s t → SameOthers s t c
Keeps-SameOthers c k = record {
  same_mmu = k.mmu_eq;
  same_context = λ j ne. (k.tasks_eq j).context_eq;
  same_service = λ j. (k.tasks_eq j).service_eq;
  same_domain = λ j. (k.tasks_eq j).domain_eq;
}

-- A hand-over from a state is one from a state with the same other tasks.
pub Switches-SameOthers :
    {s t s' : Sched} {f g : TrapFrame} (c : ℕ)
    → SameOthers s t c
    → Switches t c f s' g
    → Switches s c f s' g
Switches-SameOthers c k (inl x) = inl x
Switches-SameOthers {f = f} c k (inr (i, h)) = inr (
  i,
  record {
    other = h.other;
    current_eq = h.current_eq;
    frame_eq = h.frame_eq ∙ ap (λ x. restore_context x f) (k.same_context i h.other);
    service_eq = h.service_eq ∙ k.same_service i;
    mmu_eq = rw (sym (k.same_domain i), sym (k.same_domain c), sym k.same_mmu) h.mmu_eq;
  },
)

pub reschedule-Switches :
    (s : Sched) (c : ℕ) (f : TrapFrame) (p : Bool)
    → s.tasks.current ≡ some c
    → let (s', g) = reschedule s (some c) f p in
      Switches s c f s' g × ((j : ℕ) → context_at s' j ≡ context_at s j)
unfolding reschedule
reschedule-Switches s c f p e =
    let k = pick_next-Keeps s (some c) in
    let (pick, s') = pick_next s (some c) in
    let (switches, kept) = dispatch-Switches s' c f p (k.current_eq ∙ e) pick in
    (Switches-SameOthers c (Keeps-SameOthers c k) switches, λ j. kept j ∙ (k.tasks_eq j).context_eq)
