-- ===== src/Task/Count.antt =====
-- kernel/main/task.c: `lettuce_task_active_count` against the calls that start and end tasks.
use lettuce_os.Base.{ℕ, Table, if◌then◌else◌}
use lettuce_os.Task.Table.{Task, TaskState, is_vacant}

abbrev living : TaskState → ℕ
living s = if is_vacant s then 0 else 1
