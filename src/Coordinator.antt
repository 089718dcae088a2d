-- ===== src/Coordinator.antt =====
-- core/coordinator.rs: the reload of the configuration in two phases. The coordinator is itself
-- subscribed while its loop runs, so a notification always has a receiver and cannot fail.
pub mod Reload
pub mod Providers
pub mod Startup
pub mod MainLoop
pub mod Ends
pub mod Application
pub mod Replug
use tt_riingd.Common.{
  ℕ, zero, suc, ◌+◌, ◌%◌, List, [], ◌∷◌, String, Bool, true, false, Result, ok, err, panic,
  not_initialized, prepare_failed,
}
use tt_riingd.Config.{Config}
use tt_riingd.Config.Changes.{ConfigChangeType, hot_reload, cold_restart}
use tt_riingd.Config.Load.{reload}
use tt_riingd.Registry.{HidApi}
use tt_riingd.Event.{
  ServiceType, Response, success, prepare_config_update, commit_config_update,
  rollback_config_update, Services, execute_multiple, prepare_targets,
}

-- One turn of the loop that counts the services that failed to prepare.
abbrev pub failures_of : {F : Type 0} → List (ServiceType × Response F) → ℕ
failures_of [] = 0
failures_of ((service, success) ∷ responses) = failures_of responses
failures_of ((service, response) ∷ responses) = suc (failures_of responses)

module _ {F : Type 0} (api : HidApi) (from_str : String → Result (Config F)) (S : Services F) where
  -- The parts of the coordinator and of its shared state that a reload works on.
  pub record Coordinator : Type 0 where
    pub initialized : Bool
    pub config : Config F
    pub transaction_counter : ℕ  -- u64
    pub services : S.State

  -- The second phase.
  abbrev pub conclude : ℕ → ℕ → Coordinator → Result (Unit {0}) × Coordinator
  conclude zero id c =
      (ok tt, record c { services = S.notify (commit_config_update id) c.services })
  conclude (suc n) id c =
      (err prepare_failed, record c { services = S.notify (rollback_config_update id) c.services })

  -- Both phases, behind a reload of the configuration.
  abbrev pub two_phases : Result (Unit {0}) → Coordinator → Result (Unit {0}) × Coordinator
  two_phases (ok t) c =
      let id = c.transaction_counter in
      let (responses, services') =
        execute_multiple S c.config (prepare_config_update id) prepare_targets c.services in
      conclude (failures_of responses) id
        (record c { transaction_counter = (id + 1) % 18446744073709551616; services = services' })
  two_phases (err e) c = (err e, c)
  two_phases panic c = (panic, c)

  abbrev pub reload_initialized :
      Bool → Result String → Coordinator → Result (Unit {0}) × Coordinator
  reload_initialized true content c =
      let (r, config') = reload api from_str content c.config in
      two_phases r (record c { config = config' })
  reload_initialized false content c = (err not_initialized, c)

  unfoldable pub handle_hot_reload : Result String → Coordinator → Result (Unit {0}) × Coordinator
  handle_hot_reload content c = reload_initialized c.initialized content c

  unfoldable pub handle_config_change :
      ConfigChangeType → Result String → Coordinator → Result (Unit {0}) × Coordinator
  unfolding handle_hot_reload
  handle_config_change hot_reload content c = handle_hot_reload content c
  handle_config_change (cold_restart sections) content c = (ok tt, c)
