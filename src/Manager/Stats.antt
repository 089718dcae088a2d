-- ===== src/Manager/Stats.antt =====
-- The statistics of a batch.
use tt_riingd.Common.{List, String, Dict}
use tt_riingd.Worker.{FanController, Command}
use tt_riingd.Batch.{Outcome, update_blocking, update_forgetting}
use tt_riingd.Manager.{ControllerManager, ExecutionMode, blocking, fire_and_forget}

-- What the entries of a batch come to, in the mode.
abbrev pub outcomes_of :
    {C : FanController} {B : Type 0}
    → ExecutionMode
    → (B → Command)
    → Dict String B
    → ControllerManager C
    → List Outcome
outcomes_of {C} blocking command entries m =
    (update_blocking C command m.controller_id2worker_id entries m.worker_manager).0
outcomes_of {C} fire_and_forget command entries m =
    (update_forgetting C command m.controller_id2worker_id entries m.worker_manager).0
