-- ===== src/Sched/Mechanism/Frame.antt =====
-- kernel/scheduler/scheduler.c: a task's registers on their way through its record.
use lettuce_os.Base.{ℕ, ◌<◌, ◌≡◌, refl, arith, fill, fill_lem}
use lettuce_os.Task.Table.{TaskContext}
use lettuce_os.Sched.Mechanism.{TrapFrame, save_context, restore_context}

-- A task that is preempted and later handed the processor gets its registers x0 to x29, its link
-- register, its program counter, its status word and its stack pointer back, whatever its record
-- held before and whatever frame the hand-over finds.
pub restore_context-save_context :
    (f g : TrapFrame) (c : TaskContext)
    → let back = restore_context (save_context f c) g in
      ((r : ℕ) → r < 30 → back.x r ≡ f.x r)
      × (back.lr ≡ f.lr)
      × (back.elr ≡ f.elr)
      × (back.spsr ≡ f.spsr)
      × (back.sp_el0 ≡ f.sp_el0)
unfolding save_context restore_context
restore_context-save_context f g c = (λ r h. regs r h, refl, refl, refl, refl)
  where
    saved : ℕ → ℕ
    saved = (save_context f c).x

    regs : (r : ℕ) → r < 30 → fill 30 (λ i v. saved i) g.x r ≡ f.x r
    regs r h = ground (arith, fill_lem 30 (λ i v. saved i) g.x r, fill_lem 30 (λ i v. f.x i) c.x r)
