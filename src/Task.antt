-- ===== src/Task.antt =====
-- qraft/models/tasks.py: the status of a task.
use django_qraft.Prelude.{Bool, true, false}

pub data TaskStatus : Type 0 where
  pending running succeeded failed exhausted : TaskStatus

-- `TERMINAL_FAILURE_STATUSES` of qraft/dispatchers.py, as a test.
abbrev pub is_terminal_failure : TaskStatus → Bool
is_terminal_failure exhausted = true
is_terminal_failure failed = true
is_terminal_failure _ = false
