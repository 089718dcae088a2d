-- ===== src/Monitoring/Tick.antt =====
-- One tick of providers/monitoring.rs: from the temperatures to the speeds of the fans. Its parameters are
-- the operations of `f32` and the controllers.
use tt_riingd.Common.{
  ℕ, List, [], ◌∷◌, ◌++◌, String, Option, none, some, Result, ok, err, panic, ◌>>=◌, ok_or, Dict,
  lookup, insert, ltb, if◌then◌else◌, ◌==◌, string_eq, no_active_curve, curve_not_found,
  large_channel,
}
use tt_riingd.Floats.{Floats}
use tt_riingd.Config.{CurveCfg, curve_id}
use tt_riingd.Mapping.{FanRef, fan_eq, fans_for_sensor, get_curve_for_fan}
use tt_riingd.Curve.{calculate_speed}
use tt_riingd.Worker.{FanController}
use tt_riingd.Manager.{ControllerManager, batch_update, batch_speeds, blocking}
use tt_riingd.Monitoring.{MappingCache, MonitoringCache}

pub record MonitoringBuffer (F : Type 0) : Type 0 where
  pub batch_data : Dict String (List (ℕ × ℕ))
  pub temp_data : Dict String F

abbrev pub empty_buffer : {F : Type 0} → MonitoringBuffer F
empty_buffer = record { batch_data = []; temp_data = [] }

abbrev pub or_default {ℓ} : {A : Type ℓ} → Option (List A) → List A
or_default none = []
or_default (some xs) = xs

-- `get_mut(id)` or `entry(id).or_default()`, and the push.
abbrev pub push_speed : String → ℕ × ℕ → Dict String (List (ℕ × ℕ)) → Dict String (List (ℕ × ℕ))
push_speed id entry batch = insert id (or_default (lookup id batch) ++ entry ∷ []) batch

unfoldable pub find_curve : {F : Type 0} → String → List (CurveCfg F) → Option (CurveCfg F)
find_curve name [] = none
find_curve name (c ∷ curves) = if curve_id c == name then some c else find_curve name curves

-- `u8::try_from(fan.channel)`.
abbrev pub small_channel : ℕ → Result ℕ
small_channel channel = if ltb channel 256 then ok channel else err large_channel

module _ (R : Floats) where
  unfoldable pub calculate_fan_speed : FanRef → R.F → MappingCache R.F → Result ℕ
  unfolding get_curve_for_fan find_curve calculate_speed
  calculate_fan_speed fan temp cache = do
    name ← ok_or (get_curve_for_fan cache.active_curves fan) no_active_curve
    curve ← ok_or (find_curve name cache.curves) curve_not_found
    calculate_speed R curve temp

  -- The speed of one fan: its channel is tested first.
  abbrev pub speed_of_fan : MappingCache R.F → R.F → FanRef → Result ℕ
  speed_of_fan cache temp fan =
      small_channel fan.channel >>= λ channel. calculate_fan_speed fan temp cache

  -- The inner loop, over the fans of a sensor.
  unfoldable pub process_fans :
      MappingCache R.F → R.F → List FanRef → MonitoringBuffer R.F → Result (MonitoringBuffer R.F)
  process_fans cache temp [] buffer = ok buffer
  process_fans cache temp (fan ∷ fans) buffer = speed_of_fan cache temp fan >>= λ speed.
      process_fans cache temp fans (record buffer {
        batch_data = push_speed fan.controller_id (fan.channel, speed) buffer.batch_data;
      })

  -- The outer loop, over the keys of the sensors and what they read, `none` for an error.
  unfoldable pub process_sensors :
      MappingCache R.F
      → List (String × Option R.F)
      → MonitoringBuffer R.F
      → Result (MonitoringBuffer R.F)
  unfolding process_fans
  process_sensors cache [] buffer = ok buffer
  process_sensors cache ((key, some temp) ∷ sensors) buffer =
      process_fans cache temp (fans_for_sensor cache.mappings key)
        (record buffer { temp_data = insert key temp buffer.temp_data })
      >>= process_sensors cache sensors
  process_sensors cache ((key, none) ∷ sensors) buffer = process_sensors cache sensors buffer

  module _ (C : FanController) where
    -- Behind the loops: the batch, and then the temperatures.
    abbrev pub send_batch :
        Result (MonitoringBuffer R.F)
        → MonitoringCache R.F
        → ControllerManager C
        → Result (Unit {0}) × MonitoringCache R.F × ControllerManager C
    send_batch (ok buffer) cache m =
        let (result, m') = batch_update C (batch_speeds buffer.batch_data) blocking m in
        (ok tt, record cache { sensor_data = buffer.temp_data }, m')
    send_batch (err e) cache m = (err e, cache, m)
    send_batch panic cache m = (panic, cache, m)

    unfoldable pub collect_and_process_temperatures :
        List (String × Option R.F)
        → MonitoringCache R.F
        → ControllerManager C
        → Result (Unit {0}) × MonitoringCache R.F × ControllerManager C
    unfolding process_sensors batch_update
    collect_and_process_temperatures sensors cache m =
        send_batch (process_sensors cache.mapping_cache sensors empty_buffer) cache m
