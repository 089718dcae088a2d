-- ===== src/Config/Load.antt =====
-- Loading a configuration: `load_config_from_path`, `ensure_mappings` and the manager of config/cfg.rs.
-- Reading the file and serde_yaml's parser are parameters.
use text.Mathlib.Text.{starts_with}
use tt_riingd.Common.{
  ℕ, zero, suc, List, [], ◌∷◌, ◌++◌, String, Bool, true, false, Result, ok, err, panic, ◌>>=◌, ◌>>◌,
  unsupported_version, unsupported_hardware, if◌then◌else◌, eqb,
}
use tt_riingd.Config.{
  Config, ControllerCfg, FanTarget, constant, constant_color, controller_id, fans_count,
}
use tt_riingd.Config.Changes.{ConfigChangeType, analyze_changes}
use tt_riingd.Registry.{HidApi, merge_with_config, validate_supported_controllers, Unsupported}

-- The targets `1..=n` of a controller.
abbrev pub fan_targets : String → ℕ → List FanTarget
fan_targets id zero = []
fan_targets id (suc n) = fan_targets id n ++ record { controller_id = id; fan_idx = suc n } ∷ []

abbrev pub is_autogenerated : ControllerCfg → Bool
is_autogenerated c = starts_with (controller_id c) "autogenerated"

-- The `filter` and `fold` of `ensure_mappings`; its three mappings take the same targets.
unfoldable pub autogenerated_targets : List FanTarget → List ControllerCfg → Result (List FanTarget)
autogenerated_targets targets [] = ok targets
autogenerated_targets targets (c ∷ cs) = elim (is_autogenerated c) [
  | true ↦
      fans_count c >>= λ n. autogenerated_targets (targets ++ fan_targets (controller_id c) n) cs
  | false ↦ autogenerated_targets targets cs
]

abbrev pub with_dummies : {F : Type 0} → Config F → List FanTarget → Config F
with_dummies config targets = record config {
  mappings = config.mappings ++ record { sensor = "dummy_sensor"; targets = targets } ∷ [];
  curves = config.curves ++ constant "dummy_curve" 80 ∷ [];
  active_curve_mappings =
      config.active_curve_mappings ++ record { curve = "dummy_curve"; targets = targets } ∷ [];
  effects = config.effects ++ constant_color "dummy_effect" (255, 0, 0) ∷ [];
  effect_mappings =
      config.effect_mappings ++ record { effect = "dummy_effect"; targets = targets } ∷ [];
}

unfoldable pub ensure_mappings : {F : Type 0} → Config F → Result (Config F)
unfolding autogenerated_targets
ensure_mappings config =
    autogenerated_targets [] config.controllers >>= λ targets. ok (with_dummies config targets)

abbrev pub no_unsupported : List Unsupported → Result (Unit {0})
no_unsupported [] = ok tt
no_unsupported (u ∷ us) = err unsupported_hardware

unfoldable pub validate : {F : Type 0} → Config F → Result (Unit {0})
validate config = no_unsupported (validate_supported_controllers config)

abbrev pub require_version : ℕ → Result (Unit {0})
require_version version = if eqb version 1 then ok tt else err unsupported_version

abbrev pub store_loaded : {F : Type 0} → Result (Config F) → Config F → Result (Unit {0}) × Config F
store_loaded (ok new_config) config = (ok tt, new_config)
store_loaded (err e) config = (err e, config)
store_loaded panic config = (panic, config)

-- The file at a path, and the parser: what `fs::read_to_string` and `serde_yaml::from_str` give.
module _ {F : Type 0} (api : HidApi) (from_str : String → Result (Config F)) where
  unfoldable pub load_config : Result String → Result (Config F)
  unfolding validate ensure_mappings
  load_config content = do
    text ← content
    config ← from_str text
    require_version config.version
    validate config
    ensure_mappings (merge_with_config api config)

  -- `ConfigManager::reload`: the new configuration is stored only if it could be loaded.
  unfoldable pub reload : Result String → Config F → Result (Unit {0}) × Config F
  reload content config = store_loaded (load_config content) config

  unfoldable pub analyze_config_changes : Result String → Config F → Result ConfigChangeType
  analyze_config_changes content config =
      load_config content >>= λ new_config. ok (analyze_changes config new_config)
