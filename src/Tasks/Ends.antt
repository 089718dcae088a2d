-- ===== src/Tasks/Ends.antt =====
-- What a shutdown reports of the tasks.
use tt_riingd.Common.{
  ℕ, [], ◌∷◌, String, Option, none, some, Error, Dict, or_else, task_panicked, shutdown_timeout,
}
use tt_riingd.Tasks.{TaskEnd, completed, failed_with, panicked_task, timed_out}

-- The error of a task, if it did not complete.
abbrev pub error_of : TaskEnd → Option Error
error_of completed = none
error_of (failed_with e) = some e
error_of panicked_task = some task_panicked
error_of timed_out = some shutdown_timeout

-- The error of the first task in a list that did not complete.
abbrev pub first_failure : (ℕ → TaskEnd) → Dict String ℕ → Option Error
first_failure ends [] = none
first_failure ends ((name, handle) ∷ handles) =
    or_else (error_of (ends handle)) (first_failure ends handles)
