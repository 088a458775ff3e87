-- ===== src/Shared.antt =====
-- shared/
pub mod DynamicArray
