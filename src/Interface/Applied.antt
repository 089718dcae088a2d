-- ===== src/Interface/Applied.antt =====
-- What becomes of a request over D-Bus to reload the configuration: the answer of the interface beside what
-- the main loop makes of the event that it published, while the file stays as it is.
use tt_riingd.Common.{
  ◌≡◌, refl, ◌⊎◌, inl, inr, ℕ, List, [], ◌∷◌, String, Option, none, some, true, Result, ok, err,
  panic, ◌>>=◌, prepare_failed,
}
use tt_riingd.Floats.{Floats}
use tt_riingd.Config.{Config}
use tt_riingd.Config.Changes.{ConfigChangeType, hot_reload, cold_restart, analyze_changes}
use tt_riingd.Config.Load.{load_config, analyze_config_changes}
use tt_riingd.Registry.{HidApi}
use tt_riingd.Event.{ServiceType, Response, Services, config_change_detected}
use tt_riingd.Tasks.{TaskEnd}
use tt_riingd.Monitoring.{mapping_cache_of}
use tt_riingd.Effects.{build_effect_store}
use tt_riingd.Colors.{with_fan_color}
use tt_riingd.Colors.Reload.{
  AllServices, WorksWith, HavePrepared, Refuses, answers_to, hot_reload_both,
}
use tt_riingd.Coordinator.{Coordinator, handle_hot_reload, handle_config_change}
use tt_riingd.Coordinator.Reload.{hot_reload_atomic}
use tt_riingd.Coordinator.MainLoop.{
  SystemCoordinator, Turn, delivered, loop_on, handle_event, run_main_loop,
}
use tt_riingd.Interface.{
  ReloadAnswer, applied, restart_required, answer_of, answer_change, reload_config,
}

module _ (R : Floats) (others : Services R.F) (api : HidApi)
    (from_str : String → Result (Config R.F)) where
  abbrev pub Daemon : Type 0
  Daemon = SystemCoordinator api from_str (AllServices R others)

  abbrev pub main_loop :
      List (Turn api from_str (AllServices R others)) → Daemon → Option (Result (Unit {0})) × Daemon
  main_loop turns s = run_main_loop api from_str (AllServices R others) turns s

  -- What the services answer to the first phase, in which they prepare for the configuration.
  abbrev pub first_answers : Daemon → Config R.F → List (ServiceType × Response R.F)
  first_answers s config = answers_to R others api from_str config s.coordinator

  -- What an answer promises of the daemon behind it, which was `s` before.
  pub data IsHonoured (content : Result String) (s : Daemon)
      : Result ReloadAnswer → Option (Result (Unit {0})) × Daemon → Type 0 where
    in_use :
        {c : Coordinator api from_str (AllServices R others)} (config : Config R.F)
        → load_config api from_str content ≡ ok config
        → c.config ≡ config
        → HavePrepared (first_answers s config)
        → WorksWith R others c.services
            (mapping_cache_of config)
            (build_effect_store R config.effects config.effect_mappings)
        → IsHonoured content s (ok applied) (none, record s { coordinator = c })
    gave_up :
        {c : Coordinator api from_str (AllServices R others)} (config : Config R.F)
        → load_config api from_str content ≡ ok config
        → c.config ≡ config
        → Refuses R.F (first_answers s config)
        → WorksWith R others c.services s.coordinator.services.0.mapping_cache
            s.coordinator.services.1.0.runners
        → IsHonoured content s
            (ok applied)
            (some (err prepare_failed), record s { coordinator = c })
    untouched :
        (sections : List String) → IsHonoured content s (ok (restart_required sections)) (none, s)
    refused : {reason : _} → IsHonoured content s (err reason) (none, s)
    crashed : IsHonoured content s panic (none, s)

  looped :
      (content : Result String) (s : Daemon) (config : Config R.F) (r : Result (Unit {0}))
      (c : Coordinator api from_str (AllServices R others))
      → load_config api from_str content ≡ ok config
      → c.config ≡ config
      → ((r ≡ ok tt)
          × HavePrepared (first_answers s config)
          × WorksWith R others c.services
              (mapping_cache_of config)
              (build_effect_store R config.effects config.effect_mappings))
        ⊎ ((r ≡ err prepare_failed)
            × Refuses R.F (first_answers s config)
            × WorksWith R others c.services s.coordinator.services.0.mapping_cache
                s.coordinator.services.1.0.runners)
      → let s' : Daemon = record s { coordinator = c } in
        IsHonoured content s
          (ok applied)
          (loop_on api from_str (AllServices R others) r s' (none, s'))
  looped content s config r c loads stored (inl (e, all, w)) =
      rw e (in_use config loads stored all w)
  looped content s config r c loads stored (inr (e, one, w)) =
      rw e (gave_up config loads stored one w)

  changed :
      (content : Result String) (ends : ℕ → TaskEnd) (s : Daemon) (config : Config R.F)
      (change : ConfigChangeType)
      → s.coordinator.initialized ≡ true
      → load_config api from_str content ≡ ok config
      → IsHonoured content s (ok (answer_of change)) (
          main_loop
            (delivered api from_str
              (AllServices R others)
              content
              ends
              (config_change_detected change ∷ []))
            s)
  unfolding run_main_loop handle_event handle_config_change
  changed content ends s config hot_reload live loads =
      let (r, c) = handle_hot_reload api from_str (AllServices R others) content s.coordinator in
      looped content s config r c loads
        (hot_reload_atomic api from_str (with_fan_color R others) content s.coordinator config live
          loads).0
        (hot_reload_both R others api from_str content s.coordinator config live loads)
  changed content ends s config (cold_restart sections) live loads = untouched sections

  answered :
      (content : Result String) (ends : ℕ → TaskEnd) (s : Daemon) (loaded : Result (Config R.F))
      → s.coordinator.initialized ≡ true
      → load_config api from_str content ≡ loaded
      → let (answer, events) =
          answer_change (loaded >>= λ config. ok (analyze_changes s.coordinator.config config)) in
        IsHonoured content s answer
          (main_loop (delivered api from_str (AllServices R others) content ends events) s)
  unfolding run_main_loop
  answered content ends s (ok config) live loads =
      changed content ends s config (analyze_changes s.coordinator.config config) live loads
  answered content ends s (err e) live loads = refused
  answered content ends s panic live loads = crashed

  -- Once the daemon is initialized, the answer to a request to reload is honoured by the main loop
  -- that receives what the request published, if the file stays as it is. After `applied` the
  -- daemon holds the configuration of the file. Either each service that answered the first phase
  -- has prepared, both services work with that configuration, and the loop goes on; or a service
  -- answered otherwise, both keep what they had, and the loop has ended with that error. After any
  -- other answer the daemon is as it was, and its loop goes on.
  pub reload_config-IsHonoured :
      (content : Result String) (ends : ℕ → TaskEnd) (s : Daemon)
      → s.coordinator.initialized ≡ true
      → let (answer, events) = reload_config api from_str content s.coordinator.config in
        IsHonoured content s answer
          (main_loop (delivered api from_str (AllServices R others) content ends events) s)
  unfolding reload_config analyze_config_changes
  reload_config-IsHonoured content ends s live =
      answered content ends s (load_config api from_str content) live refl
