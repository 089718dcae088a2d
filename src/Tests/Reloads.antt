-- ===== src/Tests/Reloads.antt =====
-- A hot reload with a fan colour service that cannot prepare, and no broadcast service.
use tt_riingd.Common.{
  ℕ, ◌+◌, ◌≡◌, refl, ◌⊎◌, some, Bool, true, false, ok, err, unhandled, prepare_failed,
}
use tt_riingd.Config.{default_config}
use tt_riingd.Event.{
  execute_multiple, prepare_config_update, prepare_targets, commit_config_update, ServiceType,
  fan_color, Services, error,
}
use tt_riingd.Monitoring.{new_monitoring, mapping_cache_of, with_monitoring}
use tt_riingd.Coordinator.{Coordinator, handle_hot_reload}
use tt_riingd.Coordinator.Reload.{hot_reload_atomic, hot_reload_ignores_errors}
use tt_riingd.Tests.Registries.{api}
use tt_riingd.Tests.Configs.{parsed, loaded, file_loads}

abbrev only_colors : ServiceType → Bool
only_colors fan_color = true
only_colors _ = false

-- The state counts the requests; the answer is an error of the task.
abbrev pub failing : Services ℕ
failing = record {
  State = ℕ;
  has_handler = λ service s. only_colors service;
  ask = λ config service payload s. (some (err unhandled), s + 1);
  notify = λ event s. s;
}

-- The fan colour service answers that it could not prepare.
abbrev refusing : Services ℕ
refusing = record {
  State = ℕ;
  has_handler = λ service s. only_colors service;
  ask = λ config service payload s. (some (ok (error "no effects")), s + 1);
  notify = λ event s. s;
}

abbrev started :
    (others : Services ℕ) → others.State → Coordinator api parsed (with_monitoring others)
started others s = record {
  initialized = true;
  config = default_config;
  transaction_counter = 1;
  services = (new_monitoring default_config, s);
}

refused_reload :
    let (r, c) =
      handle_hot_reload api parsed (with_monitoring refusing) (ok "") (started refusing 0) in
    (c.config ≡ loaded)
    × (((r ≡ ok tt) × (c.services.0.mapping_cache ≡ mapping_cache_of loaded))
        ⊎ ((r ≡ err prepare_failed)
            × (c.services.0.mapping_cache ≡ mapping_cache_of default_config)))
refused_reload =
    hot_reload_atomic api parsed refusing (ok "") (started refusing 0) loaded refl file_loads

hot_reload_ignores_errors_example :
    let S = with_monitoring failing in
    let asked =
      (execute_multiple S loaded
        (prepare_config_update 1)
        prepare_targets
        (started failing 0).services).1 in
    let (r, c) = handle_hot_reload api parsed S (ok "") (started failing 0) in
    (r ≡ ok tt)
    × (c.services ≡ S.notify (commit_config_update 1) asked)
    × (c.services.0.mapping_cache ≡ mapping_cache_of loaded)
hot_reload_ignores_errors_example =
    hot_reload_ignores_errors api parsed failing (ok "") (started failing 0) loaded refl file_loads
      (λ service rest. tt)
