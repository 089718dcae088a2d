-- ===== src/Tests/Configs.antt =====
-- Loading configurations.
use tt_riingd.Common.{ℕ, ◌≡◌, refl, ◌↔◌, [], ◌∷◌, String, Result, ok}
use tt_riingd.Config.{Config}
use tt_riingd.Config.Changes.{hot_reload, analyze_changes, analyze_changes-hot_iff}
use tt_riingd.Config.Load.{
  load_config, with_dummies, validate, ensure_mappings, autogenerated_targets,
}
use tt_riingd.Config.Loaded.{IsLoaded, load_config-IsLoaded, load_config_no_default_fans}
use tt_riingd.Registry.{
  merge_with_config, merge_controllers, controller_exists, detect, unsupported_controllers,
  is_supported_hardware, fallback_id, decimal,
}
use tt_riingd.Tests.Registries.{api, file}

abbrev pub parsed : String → Result (Config ℕ)
parsed text = ok file

abbrev pub loaded : Config ℕ
loaded = with_dummies (merge_with_config api file) []

pub file_loads : load_config api parsed (ok "") ≡ ok loaded
unfolding load_config validate ensure_mappings autogenerated_targets merge_with_config
    merge_controllers controller_exists detect unsupported_controllers is_supported_hardware
    fallback_id decimal
file_loads = refl

load_config-IsLoaded_example : IsLoaded api loaded
load_config-IsLoaded_example = load_config-IsLoaded api parsed (ok "") loaded file_loads

loaded-IsLoaded : IsLoaded api loaded
loaded-IsLoaded = load_config-IsLoaded api parsed (ok "") loaded file_loads

analyze_changes-hot_iff_example :
    (analyze_changes file loaded ≡ hot_reload)
    ↔ ((file.controllers ≡ loaded.controllers) × (file.sensors ≡ loaded.sensors))
analyze_changes-hot_iff_example = analyze_changes-hot_iff file loaded

load_config_no_default_fans_example :
    loaded.mappings ≡ record { sensor = "dummy_sensor"; targets = [] } ∷ []
load_config_no_default_fans_example =
    load_config_no_default_fans api parsed "" file loaded refl (refl, tt) file_loads
