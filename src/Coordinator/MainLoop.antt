-- ===== src/Coordinator/MainLoop.antt =====
-- core/coordinator.rs: the main loop with its events, and the shutdown. `initialized` of the coordinator is
-- whether there is a shared state.
use tt_riingd.Common.{
  ℕ, List, [], ◌∷◌, map, String, Option, none, some, Bool, true, false, Result, ok, err, panic,
  Dict, if◌then◌else◌, bus_closed, shutdown_requested, signal_failed,
}
use tt_riingd.Hid.{HardwareFingerprint}
use tt_riingd.Config.{Config, ControllerCfg}
use tt_riingd.Registry.{HidApi}
use tt_riingd.Event.{
  Services, Event, config_change_detected, device_connected, device_disconnected, system_shutdown,
}
use tt_riingd.Manager.{ControllerManager, quad_controller, manager_shutdown}
use tt_riingd.Manager
use tt_riingd.Manager.Setup
use tt_riingd.Tasks.{TaskManager, TaskEnd, shutdown_all}
use tt_riingd.Coordinator.{Coordinator, handle_config_change}

-- What the subscription yields.
pub data Received (F : Type 0) : Type 0 where
  received : (event : Event F) → Received F
  closed : Received F
  lagged : (missed : ℕ) → Received F

module _ {F : Type 0} (api : HidApi) (from_str : String → Result (Config F)) (S : Services F) where
  pub record SystemCoordinator : Type 0 where
    pub coordinator : Coordinator api from_str S
    pub controllers : ControllerManager (quad_controller api.device)
    pub registry : Dict HardwareFingerprint ControllerCfg
    pub task_manager : TaskManager

  abbrev pub Outcome : Type 0
  Outcome = Result (Unit {0}) × SystemCoordinator

  -- A failure of the tasks is logged.
  unfoldable pub shutdown : (ℕ → TaskEnd) → SystemCoordinator → SystemCoordinator
  unfolding shutdown_all manager_shutdown
  shutdown ends s =
      let s' : SystemCoordinator = record s {
        task_manager = (shutdown_all ends s.task_manager).1;
      } in
      if s.coordinator.initialized
      then record s' { controllers = manager_shutdown (quad_controller api.device) s.controllers }
      else s'

  abbrev pub fingerprint : ℕ → ℕ → Option String → HardwareFingerprint
  fingerprint vid pid sn = record { vendor_id = vid; product_id = pid; serial = sn }

  unfoldable pub handle_device_connected : ℕ → ℕ → Option String → SystemCoordinator → Outcome
  handle_device_connected vid pid sn s =
      let (r, m, cache) =
        Manager.Setup.device_connected api (fingerprint vid pid sn) s.controllers s.registry in
      if s.coordinator.initialized
      then (r, record s { controllers = m; registry = cache })
      else (ok tt, s)

  unfoldable pub handle_device_disconnected : ℕ → ℕ → Option String → SystemCoordinator → Outcome
  handle_device_disconnected vid pid sn s =
      let (r, m) =
        Manager.device_disconnected (quad_controller api.device) (fingerprint vid pid sn)
          s.controllers in
      if s.coordinator.initialized then (r, record s { controllers = m }) else (ok tt, s)

  -- `content` is what the configuration file holds then, and `ends` how the tasks end.
  unfoldable pub handle_event :
      Result String → (ℕ → TaskEnd) → Received F → SystemCoordinator → Outcome
  unfolding shutdown handle_device_connected handle_device_disconnected
  handle_event content ends (received (config_change_detected change)) s =
      let (r, c) = handle_config_change api from_str S change content s.coordinator in
      (r, record s { coordinator = c })
  handle_event content ends (received system_shutdown) s = (err shutdown_requested, shutdown ends s)
  handle_event content ends (received (device_connected vid pid sn)) s =
      handle_device_connected vid pid sn s
  handle_event content ends (received (device_disconnected vid pid sn)) s =
      handle_device_disconnected vid pid sn s
  handle_event content ends (received _) s = (ok tt, s)
  handle_event content ends closed s = (err bus_closed, s)
  handle_event content ends (lagged n) s = (ok tt, s)

  -- What `select!` takes next.
  pub data Turn : Type 0 where
    ctrl_c : (listened : Bool) (ends : ℕ → TaskEnd) → Turn
    event_turn : (content : Result String) (ends : ℕ → TaskEnd) (event : Received F) → Turn

  -- Events as the turns of the loop that receive them.
  abbrev pub delivered : Result String → (ℕ → TaskEnd) → List (Event F) → List Turn
  delivered content ends events = map (λ e. event_turn content ends (received e)) events

  -- Behind an event: `?` ends the loop.
  abbrev pub loop_on :
      Result (Unit {0})
      → SystemCoordinator
      → Option (Result (Unit {0})) × SystemCoordinator
      → Option (Result (Unit {0})) × SystemCoordinator
  loop_on (ok t) s rest = rest
  loop_on (err e) s rest = (some (err e), s)
  loop_on panic s rest = (some panic, s)

  -- The loop over its turns: its result, or `none` while it runs.
  unfoldable pub run_main_loop :
      List Turn → SystemCoordinator → Option (Result (Unit {0})) × SystemCoordinator
  unfolding handle_event shutdown
  run_main_loop [] s = (none, s)
  run_main_loop (ctrl_c true ends ∷ turns) s = (some (ok tt), shutdown ends s)
  run_main_loop (ctrl_c false ends ∷ turns) s = (some (err signal_failed), s)
  run_main_loop (event_turn content ends event ∷ turns) s =
      let (r, s') = handle_event content ends event s in loop_on r s' (run_main_loop turns s')
