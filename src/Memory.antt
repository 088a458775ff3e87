-- ===== src/Memory.antt =====
-- memory/: the page allocator and the shared buffers.
pub mod Allocator
pub mod Buffers
