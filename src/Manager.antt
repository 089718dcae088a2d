-- ===== src/Manager.antt =====
-- drivers/controller_manager.rs and drivers/commands.rs: the controllers by the ids of the
-- configuration, batches over them, and hotplug.
pub mod Setup
pub mod Stats
pub mod Validity
pub mod Hotplug
pub mod Start
pub mod Delivery
pub mod History
use tt_riingd.Common.{
  ℕ, suc, List, [], ◌∷◌, map, String, Option, none, some, Result, ok, err, panic,
  controller_not_found, worker_stopped, unknown_fingerprint, length, string_eq, Dict, lookup,
  insert,
}
use tt_riingd.Protocol.{Rgb}
use tt_riingd.Hid.{HidDevice, HardwareFingerprint, fingerprint_eq}
use tt_riingd.Quad
use tt_riingd.Quad.{Controller}
use tt_riingd.Config.{ControllerCfg}
use tt_riingd.Registry.{
  HidApi, fingerprint_of, build_controllers, build_controller_from_fingerprint,
}
use tt_riingd.Worker.{
  FanController, set_speeds, set_colors, init, get_firmware, led_count, stop, Command, Reply, leds,
  WorkerManager, new_manager, start_worker, initialize, worker_count, request, stop_worker,
  worker_led_count, shutdown,
}
use tt_riingd.Batch.{
  ControllerBatchStats, Outcome, tally, stats_of, count_up, controller_of, version_of, tally_init,
  update_blocking, update_forgetting, ask_workers,
}

-- `impl FanController for TTRiingQuad`.
abbrev pub quad_controller : HidDevice → FanController
quad_controller D = record {
  State = Controller D;
  send_init = Quad.send_init D;
  update_speed_batch = Quad.update_speed_batch D;
  update_color_batch = Quad.update_color_batch D;
  firmware_version = Quad.get_version D;
  led_count = λ c. Quad.led_count;
  get_id = λ c. c.name;
}

pub data ExecutionMode : Type 0 where
  blocking : ExecutionMode
  fire_and_forget : ExecutionMode

pub data BatchCommand : Type 0 where
  batch_colors : (entries : Dict String (List (ℕ × List Rgb))) → BatchCommand
  batch_speeds : (entries : Dict String (List (ℕ × ℕ))) → BatchCommand
  batch_init : BatchCommand
  batch_firmwares : BatchCommand

pub data BatchResult : Type 0 where
  colors_set : ControllerBatchStats → BatchResult
  speeds_set : ControllerBatchStats → BatchResult
  controllers_initialized : ControllerBatchStats → BatchResult
  firmware_retrieved :
      (stats : ControllerBatchStats) (versions : List (String × (ℕ × ℕ × ℕ))) → BatchResult

abbrev pub with_name : Option String → Result Reply → Outcome
with_name (some id) r = some (id, r)
with_name none r = some ("", err controller_not_found)

abbrev pub named_outcome : Dict String (Option ℕ) → ℕ × Result Reply → Outcome
named_outcome ids (worker, r) = with_name (controller_of worker ids) r

module _ (C : FanController) where
  pub record ControllerManager : Type 0 where
    pub worker_manager : WorkerManager C
    pub controller_id2worker_id : Dict String (Option ℕ)
    pub fingerprint2controller_id : Dict HardwareFingerprint String

  unfoldable pub update_entries :
      {B : Type 0}
      → ExecutionMode
      → (B → Command)
      → Dict String B
      → ControllerManager
      → ControllerBatchStats × ControllerManager
  unfolding update_blocking update_forgetting tally
  update_entries blocking command entries m =
      let (outcomes, wm) =
        update_blocking C command m.controller_id2worker_id entries m.worker_manager in
      (stats_of (length entries) (tally outcomes), record m { worker_manager = wm })
  update_entries fire_and_forget command entries m =
      let (outcomes, wm) =
        update_forgetting C command m.controller_id2worker_id entries m.worker_manager in
      (stats_of (length entries) (tally outcomes), record m { worker_manager = wm })

  unfoldable pub handle_init : ControllerManager → ControllerBatchStats × ControllerManager
  unfolding ask_workers tally_init
  handle_init m =
      let total = worker_count C m.worker_manager in
      let (results, wm) = ask_workers C init (count_up 1 total) m.worker_manager in
      (
        stats_of total (tally_init m.controller_id2worker_id results),
        record m { worker_manager = wm },
      )

  unfoldable pub handle_firmware_versions :
      ControllerManager → ControllerBatchStats × List (String × (ℕ × ℕ × ℕ)) × ControllerManager
  unfolding ask_workers tally
  handle_firmware_versions m =
      let total = worker_count C m.worker_manager in
      let (results, wm) = ask_workers C get_firmware (count_up 1 total) m.worker_manager in
      let outcomes = map (named_outcome m.controller_id2worker_id) results in
      (stats_of total (tally outcomes), map version_of outcomes, record m { worker_manager = wm })

  unfoldable pub batch_update :
      BatchCommand → ExecutionMode → ControllerManager → BatchResult × ControllerManager
  unfolding update_entries handle_init handle_firmware_versions
  batch_update (batch_colors entries) mode m =
      let (stats, m') = update_entries mode set_colors entries m in (colors_set stats, m')
  batch_update (batch_speeds entries) mode m =
      let (stats, m') = update_entries mode set_speeds entries m in (speeds_set stats, m')
  batch_update batch_init mode m =
      let (stats, m') = handle_init m in (controllers_initialized stats, m')
  batch_update batch_firmwares mode m =
      let (stats, versions, m') = handle_firmware_versions m in
      (firmware_retrieved stats versions, m')

  -- `*worker_id = None` behind a stop that succeeded; a stop that fails is the caller's error.
  abbrev pub forget_stopped :
      Result Reply × WorkerManager C
      → String
      → ControllerManager
      → Result (Unit {0}) × ControllerManager
  forget_stopped (ok r, wm) id m = (
    ok tt,
    record m {
      worker_manager = wm;
      controller_id2worker_id = insert id none m.controller_id2worker_id;
    },
  )
  forget_stopped (err e, wm) id m = (err e, record m { worker_manager = wm })
  forget_stopped (panic, wm) id m = (panic, record m { worker_manager = wm })

  abbrev pub disconnect_controller :
      Option (Option ℕ) → String → ControllerManager → Result (Unit {0}) × ControllerManager
  disconnect_controller none id m = (ok tt, m)
  disconnect_controller (some none) id m = (ok tt, m)
  disconnect_controller (some (some worker)) id m =
      forget_stopped (stop_worker C worker m.worker_manager) id m

  abbrev pub disconnect_found :
      Option String → ControllerManager → Result (Unit {0}) × ControllerManager
  disconnect_found none m = (err unknown_fingerprint, m)
  disconnect_found (some id) m = disconnect_controller (lookup id m.controller_id2worker_id) id m

  unfoldable pub device_disconnected :
      HardwareFingerprint → ControllerManager → Result (Unit {0}) × ControllerManager
  device_disconnected f m = disconnect_found (lookup f m.fingerprint2controller_id) m

  -- The rest of `device_connected` behind the registry.
  unfoldable pub attach : HardwareFingerprint → C.State → ControllerManager → ControllerManager
  attach f c m =
      let (worker, wm) = start_worker C c m.worker_manager in
      record {
        worker_manager = wm;
        controller_id2worker_id = insert (C.get_id c) (some worker) m.controller_id2worker_id;
        fingerprint2controller_id = insert f (C.get_id c) m.fingerprint2controller_id;
      }

  abbrev pub leds_of : Result Reply → Result ℕ
  leds_of (ok (leds n)) = ok n
  leds_of (ok _) = err worker_stopped
  leds_of (err e) = err e
  leds_of panic = panic

  abbrev pub count_leds : Option (Option ℕ) → ControllerManager → Result ℕ × ControllerManager
  count_leds none m = (err controller_not_found, m)
  count_leds (some none) m = (err worker_stopped, m)
  count_leds (some (some worker)) m =
      let (r, wm) = worker_led_count C worker m.worker_manager in
      (leds_of r, record m { worker_manager = wm })

  unfoldable pub manager_led_count : String → ControllerManager → Result ℕ × ControllerManager
  manager_led_count id m = count_leds (lookup id m.controller_id2worker_id) m

  unfoldable pub manager_shutdown : ControllerManager → ControllerManager
  manager_shutdown m = record m { worker_manager = shutdown C m.worker_manager }

  abbrev pub stopped_reply : Result Reply → Result (Unit {0})
  stopped_reply (ok r) = ok tt
  stopped_reply (err e) = err e
  stopped_reply panic = panic

  abbrev pub stop_found :
      Option (Option ℕ) → ControllerManager → Result (Unit {0}) × ControllerManager
  stop_found none m = (err controller_not_found, m)
  stop_found (some none) m = (ok tt, m)
  stop_found (some (some worker)) m =
      let (r, wm) = stop_worker C worker m.worker_manager in
      (stopped_reply r, record m { worker_manager = wm })

  -- The id keeps its worker, which has ended.
  unfoldable pub stop_controller_worker :
      String → ControllerManager → Result (Unit {0}) × ControllerManager
  stop_controller_worker id m = stop_found (lookup id m.controller_id2worker_id) m
