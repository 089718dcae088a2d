-- ===== src/Tasks.antt =====
-- core/task_manager.rs. A handle is the number of its `tokio::spawn`; how the tasks end is a parameter.
pub mod Ends
use tt_riingd.Common.{
  ℕ, suc, List, [], ◌∷◌, String, Option, none, some, Bool, true, false, Result, Error, ok, err,
  Dict, insert, string_eq, task_panicked, shutdown_timeout,
}

pub record TaskManager : Type 0 where
  pub tasks : Dict String ℕ
  pub cancelled : Bool  -- the global token
  pub spawned : ℕ

abbrev pub new_tasks : TaskManager
new_tasks = record { tasks = []; cancelled = false; spawned = 0 }

-- A task under a name that is taken hides the handle of the one before.
unfoldable pub spawn_task : String → TaskManager → Result (Unit {0}) × TaskManager
spawn_task name m =
    (ok tt, record m { tasks = insert name m.spawned m.tasks; spawned = suc m.spawned })

-- What waiting for a task gives: its result, its panic, or the end of ten seconds.
pub data TaskEnd : Type 0 where
  completed : TaskEnd
  failed_with : Error → TaskEnd
  panicked_task : TaskEnd
  timed_out : TaskEnd

abbrev pub keep_first : Option Error → Error → Option Error
keep_first none e = some e
keep_first (some first) e = some first

abbrev pub with_end : TaskEnd → Option Error → Option Error
with_end completed first = first
with_end (failed_with e) first = keep_first first e
with_end panicked_task first = keep_first first task_panicked
with_end timed_out first = keep_first first shutdown_timeout

-- The loop of `shutdown_all`, with `first_error`.
unfoldable pub wait_all : (ℕ → TaskEnd) → Dict String ℕ → Option Error → Option Error
wait_all ends [] first = first
wait_all ends ((name, handle) ∷ handles) first =
    wait_all ends handles (with_end (ends handle) first)

abbrev pub outcome_of : Option Error → Result (Unit {0})
outcome_of none = ok tt
outcome_of (some e) = err e

unfoldable pub shutdown_all : (ℕ → TaskEnd) → TaskManager → Result (Unit {0}) × TaskManager
unfolding wait_all
shutdown_all ends m =
    (outcome_of (wait_all ends m.tasks none), record m { tasks = []; cancelled = true })
