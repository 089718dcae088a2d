-- ===== src/Batch.antt =====
-- The batches of drivers/controller_manager.rs over the workers. The futures of a batch run on different
-- workers, so their order makes no difference; they are taken one after the other.
pub mod Tally
pub mod Delivery
use tt_riingd.Common.{
  ℕ, zero, suc, ◌+◌, ◌-◌, List, [], ◌∷◌, String, Option, none, some, Bool, true, false, Result, ok,
  err, panic, controller_not_found, worker_stopped, if◌then◌else◌, ◌==◌, nat_eq, string_eq,
  option_eq, Dict, lookup,
}
use tt_riingd.Worker.{
  FanController, Command, Reply, done, version, WorkerManager, request, try_request,
}

pub record ControllerBatchStats : Type 0 where
  pub total : ℕ
  pub successful : ℕ
  pub failed : ℕ
  pub failed_controllers : List String

-- What one entry of a batch came to: nothing for a controller whose worker was stopped.
abbrev pub Outcome : Type 0
Outcome = Option (String × Result Reply)

-- The loop behind `join_all`: how many succeeded, and who failed.
unfoldable pub tally : List Outcome → ℕ × List String
tally [] = (0, [])
tally (none ∷ outcomes) = tally outcomes
tally (some (id, ok r) ∷ outcomes) = let (n, failed) = tally outcomes in (suc n, failed)
tally (some (id, err e) ∷ outcomes) = let (n, failed) = tally outcomes in (n, id ∷ failed)
tally (some (id, panic) ∷ outcomes) = let (n, failed) = tally outcomes in (n, id ∷ failed)

abbrev pub stats_of : ℕ → ℕ × List String → ControllerBatchStats
stats_of total (successful, failed) = record {
  total = total;
  successful = successful;
  failed = total - successful;
  failed_controllers = failed;
}

abbrev pub count_up : ℕ → ℕ → List ℕ
count_up first zero = []
count_up first (suc n) = first ∷ count_up (suc first) n

-- The first entry of the map with this worker.
abbrev pub controller_of : ℕ → Dict String (Option ℕ) → Option String
controller_of id [] = none
controller_of id ((key, worker) ∷ m) = if worker == some id then some key else controller_of id m

abbrev pub sent_outcome : String → Bool → Outcome
sent_outcome id true = some (id, ok done)
sent_outcome id false = some (id, err worker_stopped)

abbrev pub version_of : Outcome → String × (ℕ × ℕ × ℕ)
version_of (some (id, ok (version major minor patch))) = (id, (major, minor, patch))
version_of (some (id, r)) = (id, (0, 0, 0))
version_of none = ("", (0, 0, 0))

-- A failure of a worker that no controller has any more is logged and not listed.
abbrev pub listed : Option String → List String → List String
listed none failed = failed
listed (some id) failed = id ∷ failed

abbrev pub count_init : Result Reply → Option String → ℕ × List String → ℕ × List String
count_init (ok r) id (n, failed) = (suc n, failed)
count_init (err e) id (n, failed) = (n, listed id failed)
count_init panic id (n, failed) = (n, listed id failed)

-- The loop of `handle_init` behind `join_all`.
unfoldable pub tally_init : Dict String (Option ℕ) → List (ℕ × Result Reply) → ℕ × List String
tally_init ids [] = (0, [])
tally_init ids ((worker, r) ∷ results) =
    count_init r (controller_of worker ids) (tally_init ids results)

module _ (C : FanController) where
  -- One future of a blocking batch.
  abbrev pub update_one :
      Option (Option ℕ) → String → Command → WorkerManager C → Outcome × WorkerManager C
  update_one none id cmd wm = (some (id, err controller_not_found), wm)
  update_one (some none) id cmd wm = (none, wm)
  update_one (some (some worker)) id cmd wm =
      let (r, wm') = request C worker cmd wm in (some (id, r), wm')

  -- `set_colors_blocking` and `set_speeds_blocking`, which differ in their commands.
  unfoldable pub update_blocking :
      {B : Type 0}
      → (B → Command)
      → Dict String (Option ℕ)
      → Dict String B
      → WorkerManager C
      → List Outcome × WorkerManager C
  update_blocking command ids [] wm = ([], wm)
  update_blocking command ids ((id, batch) ∷ entries) wm =
      let (o, wm') = update_one (lookup id ids) id (command batch) wm in
      let (outcomes, wm'') = update_blocking command ids entries wm' in (o ∷ outcomes, wm'')

  abbrev pub send_one :
      Option (Option ℕ) → String → Command → WorkerManager C → Outcome × WorkerManager C
  send_one none id cmd wm = (some (id, err controller_not_found), wm)
  send_one (some none) id cmd wm = (none, wm)
  send_one (some (some worker)) id cmd wm =
      let (sent, wm') = try_request C worker cmd wm in (sent_outcome id sent, wm')

  -- The loops of `set_colors_fire_and_forget` and `set_speeds_fire_and_forget`.
  unfoldable pub update_forgetting :
      {B : Type 0}
      → (B → Command)
      → Dict String (Option ℕ)
      → Dict String B
      → WorkerManager C
      → List Outcome × WorkerManager C
  update_forgetting command ids [] wm = ([], wm)
  update_forgetting command ids ((id, batch) ∷ entries) wm =
      let (o, wm') = send_one (lookup id ids) id (command batch) wm in
      let (outcomes, wm'') = update_forgetting command ids entries wm' in (o ∷ outcomes, wm'')

  -- The futures of `handle_init` and `handle_firmware_versions`, over the numbers of the workers.
  unfoldable pub ask_workers :
      Command → List ℕ → WorkerManager C → List (ℕ × Result Reply) × WorkerManager C
  ask_workers cmd [] wm = ([], wm)
  ask_workers cmd (id ∷ ids) wm =
      let (r, wm') = request C id cmd wm in
      let (results, wm'') = ask_workers cmd ids wm' in ((id, r) ∷ results, wm'')
