-- ===== src/Arch/Timer.antt =====
-- kernel/arch/arm64/timer.c: the period, and what was last written to the timer's registers. The tick
-- counter stands with the scheduler, which reads it.
use lettuce_os.Base.{ℕ, ◌/◌, Bool, true, false, ◌&&◌, ltb, ◌==◌, if◌then◌else◌}

pub record Timer : Type 0 where
  pub interval : ℕ
  pub enabled : Bool
  pub tval : ℕ
  pub ctl : ℕ

-- `freq` is the register with the counter's frequency; the result is the timer and the tick counter.
unfoldable pub init : Timer → ℕ → ℕ → Timer × ℕ
init t freq hz =
    let interval = freq / (if hz == 0 then 100 else hz) in
    (record { interval = interval; enabled = true; tval = interval; ctl = 1 }, 0)

unfoldable pub rearm : Timer → Timer
rearm t = if t.enabled && ltb 0 t.interval then record t { tval = t.interval; ctl = 1 } else t

unfoldable pub disable : Timer → Timer
disable t = record t { enabled = false; ctl = 0 }
