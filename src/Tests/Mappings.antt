-- ===== src/Tests/Mappings.antt =====
-- Mappings of sensors, curves and effects.
use tt_riingd.Common.{ℕ, ◌≡◌, ◌≢◌, List, [], ◌∷◌, String, some, true, false, string_eq}
use tt_riingd.Config.{FanTarget, MappingCfg, CurveMappingCfg, EffectMappingCfg}
use tt_riingd.Mapping.{
  FanRef, fan_eq, contains, fans_for_sensor, load_mappings, load_curve_mappings, get_curve_for_fan,
}
use tt_riingd.Mapping.Sensors.{contains-fans_for_sensor}
use tt_riingd.Mapping.Curves.{get_curve_for_fan-last}

abbrev target : ℕ → FanTarget
target idx = record { controller_id = "quad"; fan_idx = idx }

abbrev fan : ℕ → FanRef
fan idx = record { controller_id = "quad"; channel = idx }

-- Both sensors name fan 2, and the first names fan 1 twice.
abbrev mappings : List MappingCfg
mappings =
    record { sensor = "cpu"; targets = target 1 ∷ target 2 ∷ target 1 ∷ [] }
    ∷ record { sensor = "gpu"; targets = target 2 ∷ [] }
    ∷ []

abbrev curves : List CurveMappingCfg
curves =
    record { curve = "quiet"; targets = target 1 ∷ target 2 ∷ [] }
    ∷ record { curve = "loud"; targets = target 2 ∷ [] }
    ∷ []

contains-fans_for_sensor_example :
    contains (fan 2) (fans_for_sensor (load_mappings mappings) "cpu") ≡ true
contains-fans_for_sensor_example = contains-fans_for_sensor mappings "cpu" (fan 2)

get_curve_for_fan-last_example :
    get_curve_for_fan (load_curve_mappings curves) (fan 2) ≡ some "loud"
get_curve_for_fan-last_example = get_curve_for_fan-last curves (fan 2)

cpu_gpu : ◌≢◌ {A = String} "cpu" "gpu"
cpu_gpu h = let e : false ≡ true = (string_eq.beq_iff "cpu" "gpu").1 h in cc e

abbrev effects : List EffectMappingCfg
effects = record { effect = "rainbow"; targets = target 1 ∷ target 1 ∷ [] } ∷ []
