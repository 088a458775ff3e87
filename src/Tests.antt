-- ===== src/Tests.antt =====
-- Runs of the modelled code, and the theorems at concrete states.
mod Capability
mod Ipc
mod Registry
mod Memory
mod Buffers
mod Task
mod Sched
mod Shared
mod Arch
mod Protection
mod System
mod Demo
mod Posix
mod Tables
