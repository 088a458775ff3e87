-- ===== src/Kernel.antt =====
-- The portable supervisor: kernel/main/kernel.c, dispatch.c, context.c and protection.c.
pub mod Registry
pub mod Dispatch
pub mod Context
pub mod Protection
