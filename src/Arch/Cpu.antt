-- ===== src/Arch/Cpu.antt =====
-- kernel/arch/arm64/cpu.c: the stack of saved callers, pointer authentication, and the counter that
-- disables preemption. What the instructions of pac.S do is a parameter.
pub mod Stack
use lettuce_os.Base.{
  ℕ, ◌+◌, ◌-◌, ◌%◌, ◌^◌, Bool, true, false, Option, none, some, Table, update, ltb, leb, ◌==◌,
  if◌then◌else◌, bit_xor,
}

abbrev pub context_max : ℕ
context_max = 8

-- `LettuceArchContextFrame`
pub record ContextFrame : Type 0 where
  pub service_id : ℕ
  pub domain_id : ℕ
  pub elr : ℕ
  pub spsr : ℕ
  pub sp_el0 : ℕ

-- The static variables of the file
pub record Cpu : Type 0 where
  pub stack : Table ContextFrame
  pub depth : ℕ
  pub pac_enabled : Bool
  pub pac_expected_trap : Bool
  pub pac_trap_observed : Bool
  pub preempt_disable_count : ℕ
  pub elevator_use_asm : Bool

-- `lettuce_pac_sign` and `lettuce_pac_auth`: a pointer and a modifier
pub record Pac : Type 0 where
  pub sign : ℕ → ℕ → ℕ
  pub auth : ℕ → ℕ → ℕ

unfoldable pub pac_enable : Cpu → Bool → Cpu
pac_enable c enable = record c { pac_enabled = enable }

unfoldable pub pac_expect_trap : Cpu → Cpu
pac_expect_trap c = record c { pac_expected_trap = true; pac_trap_observed = false }

unfoldable pub context_corrupt_top_elr : Cpu → ℕ → Cpu
context_corrupt_top_elr c xor_mask =
    let top = c.stack (c.depth - 1) in
    if c.depth == 0 then c else record c {
      stack = update c.stack (c.depth - 1) (record top { elr = bit_xor top.elr xor_mask });
    }

unfoldable pub preempt_disable : Cpu → Cpu
preempt_disable c = record c { preempt_disable_count = (c.preempt_disable_count + 1) % 2 ^ 32 }

unfoldable pub preempt_enable : Cpu → Cpu
preempt_enable c =
    if ltb 0 c.preempt_disable_count
    then record c { preempt_disable_count = c.preempt_disable_count - 1 }
    else c

unfoldable pub preempt_is_enabled : Cpu → Bool
preempt_is_enabled c = c.preempt_disable_count == 0

unfoldable pub elevator_set_use_asm : Cpu → Bool → Cpu
elevator_set_use_asm c use_asm = record c { elevator_use_asm = use_asm }

module _ (pac : Pac) where
  unfoldable pub push : Cpu → ContextFrame → Bool × Cpu
  push c f =
      let stored_elr = if c.pac_enabled then pac.sign f.elr f.service_id else f.elr in
      if leb context_max c.depth then (false, c) else (
        true,
        record c {
          stack = update c.stack c.depth (record f { elr = stored_elr });
          depth = c.depth + 1;
        },
      )

  -- `lettuce_arch_context_pop`: what is written through `out_frame`, `none` for a result of false
  unfoldable pub pop : Cpu → Option ContextFrame × Cpu
  pop c =
      let top = c.stack (c.depth - 1) in
      let elr = if c.pac_enabled then pac.auth top.elr top.service_id else top.elr in
      if c.depth == 0
      then (none, c)
      else (some (record top { elr = elr }), record c { depth = c.depth - 1 })
