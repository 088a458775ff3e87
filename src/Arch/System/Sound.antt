-- ===== src/Arch/System/Sound.antt =====
-- kernel/arch/arm64/cpu.c: no exception changes the authority of a service, and every one keeps the
-- machine sound.
use lettuce_os.Base.{
  ap, arith, to_i32, ℕ, ◌%◌, ◌^◌, ◌≡◌, inl, inr, refl, subst, Bool, true, false, ◌&&◌, ◌||◌, Option,
  none, some, ◌==◌, if◌then◌else◌, Bool-cases, Option-cases, ℤ,
}
use lettuce_os.Sched.State.{Sched}
use lettuce_os.Sched.Mechanism.{TrapFrame, tick, yield}
use lettuce_os.Posix.Sys.{in_kernel, is_bad_nsec, sys_nanosleep, delta_ticks, Timespec}
use lettuce_os.Arch.Mmu.{handle_fault, handle_sysreg_trap}
use lettuce_os.Arch.Cpu.{preempt_is_enabled, Pac}
use lettuce_os.Arch.Timer.{Timer}
use lettuce_os.Arch.Machine.{Machine, Outcome, resumes, resumes_kernel, halts, mmu_of, service_of}
use lettuce_os.Arch.Svc.{same_layer, cross_layer, elevator}
use lettuce_os.Arch.Syscall.{
  Counter, syscall, clock_gettime, nanosleep, nanosleep_result, load_timespec,
}
use lettuce_os.Arch.Exception.{
  observe_pac_trap, exception_class, is_data_abort, vtimer, sync_lower, sync_el1, irq_lower,
  irq_el1, handle_svc, svc_yield, timer_irq, tick_outcome,
}
use lettuce_os.Arch.System.{
  machine_after, Exception, handle, syncs_lower, syncs_el1, interrupts_lower, interrupts_el1,
  stores, stored,
}
use mathlib.Core.Option.{some-injective}
use lettuce_os.Arch.System.Image.{
  sys_write-memory, sys_read-memory, sys_close-memory, sys_clock_gettime-SameImage,
}
use lettuce_os.Arch.System.Leads.{
  Leads, Leads-refl, Leads-trans, with_sched-Leads, identity-Leads, faults-Leads, io-Leads,
  tick-Leads, yield-Leads, sleep-Leads,
}
use lettuce_os.Arch.System.Calls.{EndsWell, svc_call-Leads, svc_return-Leads}

svc_yield-Leads : (m : Machine) (f : TrapFrame) → EndsWell m (svc_yield m f)
unfolding svc_yield
svc_yield-Leads m f = elim (Option-cases (yield m.sched (some f)).1) [
  | inl e ↦ rw (e, svc_yield) (yield-Leads m (some f))
  | inr (g, e) ↦ rw (e, svc_yield) (yield-Leads m (some f))
]

nanosleep_result-Leads :
    (m n : Machine) (f : TrapFrame) (res : ℤ) (f' : Option TrapFrame)
    → Leads m n
    → Leads m (nanosleep_result n f res f').0
unfolding nanosleep_result
nanosleep_result-Leads m n f res none l = l
nanosleep_result-Leads m n f res (some g) l = l

sleep_if-Leads :
    (m : Machine) (c : Bool) (a b : ℤ × Sched × Option TrapFrame)
    → Leads m (record m { sched = a.1 })
    → Leads m (record m { sched = b.1 })
    → Leads m (record m { sched = (if c then a else b).1 })
sleep_if-Leads m true a b x y = x
sleep_if-Leads m false a b x y = y

sys_nanosleep-Leads :
    (m : Machine) (req : ℕ) (t : Timespec) (freq : ℕ) (frame : Option TrapFrame)
    → Leads m (record m { sched = (sys_nanosleep m.sched req t freq frame).1 })
unfolding sys_nanosleep
sys_nanosleep-Leads m req t freq frame = sleep_if-Leads m (req == 0) _ _ (Leads-refl m) (
    sleep_if-Leads m (is_bad_nsec t.tv_nsec) _ _ (Leads-refl m) (
      sleep_if-Leads m (in_kernel req) _ _ (Leads-refl m)
        (sleep-Leads m (delta_ticks t freq) frame)))

nanosleep-Leads : (m : Machine) (f : TrapFrame) (c : Counter) → Leads m (nanosleep m f c).0
unfolding nanosleep
nanosleep-Leads m f c =
    let t = load_timespec m.io.memory (f.x 0) in
    nanosleep_result-Leads m _ f _ (sys_nanosleep m.sched (f.x 0) t c.freq (some f)).2
      (sys_nanosleep-Leads m (f.x 0) t c.freq (some f))

if-Leads :
    (m : Machine) (c : Bool) (a b : Machine × TrapFrame)
    → Leads m a.0
    → Leads m b.0
    → Leads m (if c then a else b).0
if-Leads m true a b x y = x
if-Leads m false a b x y = y

syscall-Leads : (m : Machine) (f : TrapFrame) (c : Counter) → Leads m (syscall m f c).0
unfolding syscall clock_gettime
syscall-Leads m f c =
    if-Leads m (f.x 8 == 1) _ _
      (io-Leads m _
        λ v a lo hi. ap (λ g. g a) (sys_write-memory m.fds (to_i32 (f.x 0)) (f.x 1) (f.x 2) m.io v))
      (if-Leads m (f.x 8 == 2) _ _
        (io-Leads m _ λ v a lo hi.
          ap (λ g. g a) (sys_read-memory m.fds (to_i32 (f.x 0)) (f.x 1) (f.x 2) m.io v))
        (if-Leads m (f.x 8 == 3) _ _
          (io-Leads m _
            λ v a lo hi. ap (λ g. g a) (sys_close-memory m.fds (to_i32 (f.x 0)) 0 0 m.io v))
          (if-Leads m (f.x 8 == 4) _ _ (Leads-refl m) (
            if-Leads m (f.x 8 == 5) _ _
              (io-Leads m _
                λ v. sys_clock_gettime-SameImage (to_i32 (f.x 0)) (f.x 1) c.ticks c.freq m.io)
              (if-Leads m (f.x 8 == 6) _ _ (nanosleep-Leads m f c) (Leads-refl m))))))

if-EndsWell :
    (m : Machine) (c : Bool) (a b : Outcome)
    → EndsWell m a
    → EndsWell m b
    → EndsWell m (if c then a else b)
if-EndsWell m true a b x y = x
if-EndsWell m false a b x y = y

handle_svc-Leads :
    (pac : Pac) (m : Machine) (f : TrapFrame) (imm : ℕ) (c : Counter)
    → EndsWell m (handle_svc pac m f imm c)
unfolding handle_svc
handle_svc-Leads pac m f imm c = if-EndsWell m (imm == 0) _ _ (svc_return-Leads pac m f) (
    if-EndsWell m (imm == 1) _ _ (svc_call-Leads pac same_layer m f) (
      if-EndsWell m (imm == 2) _ _ (svc_call-Leads pac cross_layer m f) (
        if-EndsWell m (imm == 3) _ _ (svc_call-Leads pac elevator m f) (
          if-EndsWell m (imm == 4) _ _ (svc_yield-Leads m f)
            (if-EndsWell m (imm == 5) _ _ (syscall-Leads m f c) tt)))))

sync_lower-Leads :
    (pac : Pac) (m : Machine) (f : TrapFrame) (esr far : ℕ) (c : Counter)
    → EndsWell m (sync_lower pac m f esr far c)
unfolding sync_lower
sync_lower-Leads pac m f esr far c =
    let ec = exception_class esr in
    if-EndsWell m (ec == 0x15) _ _ (handle_svc-Leads pac m f (esr % 2 ^ 16) c) (
      if-EndsWell m (is_data_abort ec) _ _
        (if-EndsWell m (handle_fault (mmu_of m).faults esr far f.elr).0 _ _ (faults-Leads m _) tt)
        (if-EndsWell m (ec == 0x18 || ec == 0) _ _
          (if-EndsWell m (handle_sysreg_trap (mmu_of m).faults esr f.elr).0 _ _ (faults-Leads m _)
            tt)
          tt))

trap-Leads : (m : Machine) → Leads m (observe_pac_trap m)
trap-Leads m = identity-Leads m _ (service_of m) (mmu_of m) refl (λ v. v) (λ h. h)

sync_el1-Leads : (m : Machine) (f : TrapFrame) (esr far : ℕ) → EndsWell m (sync_el1 m f esr far)
unfolding sync_el1
sync_el1-Leads m f esr far =
    let ec = exception_class esr in
    if-EndsWell m (is_data_abort ec && (handle_fault (mmu_of m).faults esr far f.elr).0) _ _
      (faults-Leads m _)
      (if-EndsWell m (ec == 0x1c && m.cpu.pac_expected_trap) _ _ (trap-Leads m) tt)

timer_irq-Leads : (m : Machine) (t : Timer) → Leads m (timer_irq m t).0
unfolding timer_irq
timer_irq-Leads m t = with_sched-Leads m _ refl (λ v. v) (λ v. v)

tick_outcome-Leads :
    (m n : Machine) (f : TrapFrame) (s : Sched) (g : Option TrapFrame)
    → Leads m (record n { sched = s })
    → EndsWell m (tick_outcome n f (s, g))
unfolding tick_outcome
tick_outcome-Leads m n f s none l = l
tick_outcome-Leads m n f s (some g) l = if-EndsWell m s.is_active _ _ l l

timed-EndsWell :
    (m : Machine) (c : Bool) (a b : Outcome × Timer)
    → EndsWell m a.0
    → EndsWell m b.0
    → EndsWell m (if c then a else b).0
timed-EndsWell m true a b x y = x
timed-EndsWell m false a b x y = y

irq_lower-Leads :
    (m : Machine) (t : Timer) (f : TrapFrame) (intid : ℕ) → EndsWell m (irq_lower m t f intid).0
unfolding irq_lower
irq_lower-Leads m t f intid =
    let m' = (timer_irq m t).0 in
    let first = timer_irq-Leads m t in
    let ticked = Leads-trans first (tick-Leads m' (some f)) in
    timed-EndsWell m (intid == vtimer) _ _
      (timed-EndsWell m (m'.sched.is_active && preempt_is_enabled m'.cpu) _ _
        (tick_outcome-Leads m m' f (tick m'.sched (some f)).0 (tick m'.sched (some f)).1 ticked)
        first)
      (Leads-refl m)

irq_el1-Leads : (m : Machine) (t : Timer) (intid : ℕ) → Leads m (irq_el1 m t intid).0
unfolding irq_el1
irq_el1-Leads m t intid = elim (Bool-cases (intid == vtimer)) [
  | inl e ↦ rw (e, irq_el1) (timer_irq-Leads m t)
  | inr e ↦ rw (e, irq_el1) (Leads-refl m)
]

EndsWell-Leads : (m n : Machine) (o : Outcome) → EndsWell m o → machine_after o ≡ some n → Leads m n
EndsWell-Leads m n (resumes p f) l e = subst (Leads m) (some-injective _ _ e) l
EndsWell-Leads m n (resumes_kernel p x) l e = subst (Leads m) (some-injective _ _ e) l
EndsWell-Leads m n halts l e = absurd (cc e)

pub handle-Leads : (pac : Pac) (m n : Machine) (x : Exception) → handle pac m x ≡ some n → Leads m n
unfolding handle
handle-Leads pac m n (syncs_lower f esr far c) e =
    EndsWell-Leads m n _ (sync_lower-Leads pac m f esr far c) e
handle-Leads pac m n (syncs_el1 f esr far c) e = EndsWell-Leads m n _ (sync_el1-Leads m f esr far) e
handle-Leads pac m n (interrupts_lower f t intid) e =
    EndsWell-Leads m n _ (irq_lower-Leads m t f intid) e
handle-Leads pac m n (interrupts_el1 f t intid) e =
    subst (Leads m) (some-injective _ _ e) (irq_el1-Leads m t intid)
handle-Leads pac m n (stores memory) e = subst (Leads m) (some-injective _ _ e) (
    io-Leads m (record (m.io) { memory = stored m.io.memory memory })
      λ v a lo hi. ground (arith, lo, hi))
