-- ===== src/Arch/Exception/Laws.antt =====
-- kernel/arch/arm64/cpu.c: what an exception from EL0 can lead to.
use lettuce_os.Base.{ℕ, ◌+◌, ◌%◌, ◌^◌, ◌≡◌, false, ◌&&◌, arith, ◌==◌, if◌then◌else◌}
use lettuce_os.Sched.Mechanism.{TrapFrame}
use lettuce_os.Arch.Cpu.{preempt_is_enabled}
use lettuce_os.Arch.Timer.{Timer}
use lettuce_os.Arch.Machine.{Machine, resumes}
use lettuce_os.Arch.Exception.{irq_lower, timer_irq, vtimer}

-- An interrupt in a service, when the scheduler is stopped or preemption is disabled, goes back to
-- the frame that it came from, and changes nothing of the machine but the tick counter, which moves
-- on for the timer's interrupt only.
pub irq_lower_lem :
    (m : Machine) (t : Timer) (f : TrapFrame) (intid : ℕ)
    → (m.sched.is_active && preempt_is_enabled m.cpu) ≡ false
    → (irq_lower m t f intid).0
      ≡ resumes
          (record m {
            sched = record (m.sched) {
              ticks = if intid == vtimer then (m.sched.ticks + 1) % 2 ^ 64 else m.sched.ticks;
            };
          })
          f
unfolding irq_lower timer_irq
irq_lower_lem m t f intid off = ground arith
