-- ===== src/Tests/Ticks.antt =====
-- Ticks of the monitoring service.
use tt_riingd.Common.{
  ℕ, ◌≡◌, refl, List, [], ◌∷◌, String, Option, none, some, ok, err, lookup, insert, string_eq,
  no_active_curve,
}
use tt_riingd.Event.{prepare_config_update}
use tt_riingd.Monitoring.Service.{Turn, request, ticked, missed}
use tt_riingd.Config.{default_config, constant}
use tt_riingd.Mapping.{FanRef, fan_eq, fans_for_sensor, get_curve_for_fan}
use tt_riingd.Monitoring.{MappingCache, MonitoringCache, empty_cache}
use tt_riingd.Monitoring.Tick.{
  MonitoringBuffer, find_curve, calculate_fan_speed, process_sensors, process_fans, empty_buffer,
  collect_and_process_temperatures,
}
use tt_riingd.Curve.{calculate_speed}
use tt_riingd.Monitoring.Batches.{demands, speeds_of, tick_aborts}
use tt_riingd.Tests.Curves.{fixed}
use tt_riingd.Tests.Workers.{counting}
use tt_riingd.Tests.Managers.{attached}

abbrev fan : String → ℕ → FanRef
fan id channel = record { controller_id = id; channel = channel }

-- Two fans of one controller and one of another follow one curve.
abbrev cache : MappingCache ℕ
cache = record {
  mappings = record {
    fans2sensor =
        (fan "counting" 1, "cpu") ∷ (fan "other" 1, "cpu") ∷ (fan "counting" 2, "gpu") ∷ [];
    sensor2fans =
        ("cpu", fan "counting" 1 ∷ fan "other" 1 ∷ []) ∷ ("gpu", fan "counting" 2 ∷ []) ∷ [];
  };
  curves = constant "quiet" 35 ∷ [];
  active_curves =
      (fan "counting" 1, "quiet") ∷ (fan "other" 1, "quiet") ∷ (fan "counting" 2, "quiet") ∷ [];
}

abbrev monitoring_cache : MonitoringCache ℕ
monitoring_cache = record { sensor_data = []; mapping_cache = cache; new_mapping = empty_cache }

-- The second sensor cannot be read.
abbrev readings : List (String × Option ℕ)
readings = ("cpu", some 51200) ∷ ("board", none) ∷ ("gpu", some 61440) ∷ []

abbrev filled : MonitoringBuffer ℕ
filled = record {
  batch_data = ("counting", (1, 35) ∷ (2, 35) ∷ []) ∷ ("other", (1, 35) ∷ []) ∷ [];
  temp_data = ("cpu", 51200) ∷ ("gpu", 61440) ∷ [];
}

fills : process_sensors fixed cache readings empty_buffer ≡ ok filled
unfolding process_sensors process_fans calculate_fan_speed calculate_speed find_curve
    get_curve_for_fan fans_for_sensor lookup insert
fills = refl

-- Without its curve, a fan ends the tick.
abbrev lost_curve : MonitoringCache ℕ
lost_curve = record monitoring_cache { mapping_cache = record cache { active_curves = [] } }

first_fails :
    speeds_of fixed lost_curve.mapping_cache (demands fixed lost_curve.mapping_cache readings)
    ≡ err no_active_curve
unfolding calculate_fan_speed get_curve_for_fan fans_for_sensor lookup
first_fails = refl

tick_aborts_example :
    collect_and_process_temperatures fixed counting readings lost_curve attached
    ≡ (err no_active_curve, lost_curve, attached)
tick_aborts_example =
    tick_aborts fixed counting readings lost_curve attached no_active_curve first_fails

abbrev turns : List (Turn fixed counting)
turns = request default_config (prepare_config_update 1) ∷ ticked readings ∷ missed ∷ []
