-- ===== src/Interface/Agreement.antt =====
-- The request over D-Bus beside the watcher, and what becomes of a stop.
use tt_riingd.Common.{String, true, Result, ok, err, panic, ◌≡◌, refl}
use tt_riingd.Config.{Config}
use tt_riingd.Config.Changes.{ConfigChangeType}
use tt_riingd.Config.Load.{analyze_config_changes}
use tt_riingd.Watcher.{ConfigFile, watching, tick, publish_change, step}
use tt_riingd.Interface.{answer_change, reload_config}

changed_alike :
    {F : Type 0} (file : ConfigFile F) (r : Result ConfigChangeType)
    → (answer_change {F = F} r).1 ≡ (publish_change file r).1
changed_alike file (ok change) = refl
changed_alike file (err e) = refl
changed_alike file panic = refl

-- A request over D-Bus publishes just what the watcher would publish at a tick for the same file, where
-- the file exists and a change is pending.
pub reload_config-step :
    {F : Type 0} (file : ConfigFile F) (content : Result String) (config : Config F)
    → (reload_config file.api file.from_str content config).1
      ≡ (step file (tick true content config) (watching true)).1
unfolding reload_config step
reload_config-step file content config =
    changed_alike file (analyze_config_changes file.api file.from_str content config)
