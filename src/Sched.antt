-- ===== src/Sched.antt =====
-- kernel/scheduler/: the scheduling policies and the mechanism that uses them.
pub mod State
pub mod RoundRobin
pub mod Eevdf
pub mod Mechanism
