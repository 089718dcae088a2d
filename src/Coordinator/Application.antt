-- ===== src/Coordinator/Application.antt =====
-- `SystemCoordinator::initialize` of core/coordinator.rs with `AppState::new` of core/app_context.rs, and
-- `Application::run` of core/application.rs.
use tt_riingd.Common.{
  ℕ, List, [], ◌∷◌, ◌++◌, String, Option, some, Bool, true, Result, ok, err, panic, Dict, ◌≡◌,
}
use tt_riingd.Hid.{HardwareFingerprint}
use tt_riingd.Config.{Config, ControllerCfg}
use tt_riingd.Registry.{HidApi}
use tt_riingd.Event.{Services}
use tt_riingd.Manager.{ControllerManager, quad_controller, batch_update, batch_init, blocking}
use tt_riingd.Manager.Setup.{init_from_cfg}
use tt_riingd.Tasks.{TaskEnd}
use tt_riingd.Coordinator.Providers.{
  ServiceProvider, register_service_providers, start_all_services,
}
use tt_riingd.Coordinator.MainLoop.{SystemCoordinator, Turn, ctrl_c, run_main_loop}
use tt_riingd.Coordinator.Ends.{IsDown, main_loop_ok}

module _ {F : Type 0} (api : HidApi) (from_str : String → Result (Config F)) (S : Services F) where
  -- A coordinator with the providers that it has registered.
  abbrev pub Prepared : Type 0
  Prepared = SystemCoordinator api from_str S × List ServiceProvider

  -- Behind `AppState::new`: the shared state is there, and then the controllers are initialized.
  abbrev pub with_state :
      Bool
      → Config F
      → SystemCoordinator api from_str S
      → Result (ControllerManager (quad_controller api.device))
        × Dict HardwareFingerprint ControllerCfg
      → Result (Unit {0}) × Prepared
  with_state connected config s (ok m, cache) =
      let (result, m') = batch_update (quad_controller api.device) batch_init blocking m in
      let c = record s.coordinator { initialized = true; config = config } in
      (
        ok tt,
        (
          record s { coordinator = c; controllers = m'; registry = cache },
          register_service_providers connected,
        ),
      )
  with_state connected config s (err e, cache) = (err e, (record s { registry = cache }, []))
  with_state connected config s (panic, cache) = (panic, (record s { registry = cache }, []))

  -- `initialize`; `connected` is whether the session bus can be reached.
  unfoldable pub initialize :
      Bool → Config F → SystemCoordinator api from_str S → Result (Unit {0}) × Prepared
  unfolding register_service_providers batch_update
  initialize connected config s =
      with_state connected config s (init_from_cfg api config.controllers s.registry)

  -- The loop, behind the start of the services.
  abbrev pub then_loop :
      Result (Unit {0})
      → List (Turn api from_str S)
      → SystemCoordinator api from_str S
      → Option (Result (Unit {0})) × SystemCoordinator api from_str S
  then_loop (ok t) turns s = run_main_loop api from_str S turns s
  then_loop (err e) turns s = (some (err e), s)
  then_loop panic turns s = (some panic, s)

  abbrev pub then_start :
      Result (Unit {0}) × Prepared
      → List (Turn api from_str S)
      → Option (Result (Unit {0})) × SystemCoordinator api from_str S
  then_start (ok t, (s, providers)) turns =
      let (r, tasks) = start_all_services providers s.task_manager in
      then_loop r turns (record s { task_manager = tasks })
  then_start (err e, (s, providers)) turns = (some (err e), s)
  then_start (panic, (s, providers)) turns = (some panic, s)

  unfoldable pub run :
      Bool
      → Config F
      → List (Turn api from_str S)
      → SystemCoordinator api from_str S
      → Option (Result (Unit {0})) × SystemCoordinator api from_str S
  unfolding initialize start_all_services run_main_loop
  run connected config turns s = then_start (initialize connected config s) turns

  looped :
      (r : Result (Unit {0})) (turns : List (Turn api from_str S))
      (s : SystemCoordinator api from_str S)
      → (then_loop r turns s).0 ≡ some (ok tt)
      → ((before behind : List (Turn api from_str S)) × (ends : ℕ → TaskEnd) × (turns
            ≡ before ++ ctrl_c true ends ∷ behind))
        × IsDown api from_str S (then_loop r turns s).1
  looped (ok t) turns s h = main_loop_ok api from_str S turns s h
  looped (err e) turns s h = cc
  looped panic turns s h = cc

  start_and_loop :
      (p : Result (Unit {0}) × Prepared) (turns : List (Turn api from_str S))
      → (then_start p turns).0 ≡ some (ok tt)
      → ((before behind : List (Turn api from_str S)) × (ends : ℕ → TaskEnd) × (turns
            ≡ before ++ ctrl_c true ends ∷ behind))
        × IsDown api from_str S (then_start p turns).1
  start_and_loop (ok t, (s, providers)) turns h =
      let (r, tasks) = start_all_services providers s.task_manager in
      looped r turns (record s { task_manager = tasks }) h
  start_and_loop (err e, (s, providers)) turns h = cc
  start_and_loop (panic, (s, providers)) turns h = cc

  -- The application ends without an error only by Ctrl-C, and then the managers hold no task and
  -- no worker any more.
  pub run_ok :
      (connected : Bool) (config : Config F) (turns : List (Turn api from_str S))
      (s : SystemCoordinator api from_str S)
      → (run connected config turns s).0 ≡ some (ok tt)
      → ((before behind : List (Turn api from_str S)) × (ends : ℕ → TaskEnd) × (turns
            ≡ before ++ ctrl_c true ends ∷ behind))
        × IsDown api from_str S (run connected config turns s).1
  unfolding run
  run_ok connected config turns s h = start_and_loop (initialize connected config s) turns h
