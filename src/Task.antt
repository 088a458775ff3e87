-- ===== src/Task.antt =====
-- kernel/main/task.c and kernel/include/task.h: the static table of 16 tasks. A pointer to a task is
-- its slot in the table.
pub mod Table
pub mod Laws
pub mod Create
pub mod Terminate
pub mod Count
