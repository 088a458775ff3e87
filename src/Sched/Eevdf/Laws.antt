-- ===== src/Sched/Eevdf/Laws.antt =====
-- kernel/scheduler/eevdf.c: which task `eevdf_pick_next` picks.
pub mod Search
pub mod Pick
pub mod Time
