-- ===== src/Arch.antt =====
-- kernel/arch/arm64/: the C code of the ARM64 port
pub mod Mmu
pub mod Cpu
pub mod Console
pub mod Machine
pub mod Timer
pub mod Gic
pub mod Features
pub mod Svc
pub mod Syscall
pub mod Exception
pub mod Demo
pub mod System
