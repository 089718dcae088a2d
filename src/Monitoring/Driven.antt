-- ===== src/Monitoring/Driven.antt =====
-- The ticks of the monitoring service that reach the controllers.
use tt_riingd.Common.{
  ℕ, ◌<◌, List, [], ◌∷◌, String, Option, some, true, ok, ◌>>=◌, ok_or, ◌≡◌, refl, ap, ◌∙◌, All,
  arith, ltb, if◌then◌else◌, err, large_channel, lookup, string_eq, IsMap, no_active_curve,
  curve_not_found,
}
use tt_riingd.Floats.{Floats, IeeeLaws}
use tt_riingd.Config.{CurveCfg}
use tt_riingd.Mapping.{FanRef, get_curve_for_fan}
use tt_riingd.Worker.{FanController}
use tt_riingd.Manager.{ControllerManager, batch_update, batch_speeds, blocking}
use tt_riingd.Curve.{calculate_speed}
use tt_riingd.Curve.Usable.{IsUsable, calculate_speed_total}
use tt_riingd.Monitoring.{MappingCache, MonitoringCache}
use tt_riingd.Monitoring.Tick.{
  MonitoringBuffer, find_curve, calculate_fan_speed, speed_of_fan, send_batch, or_default,
  collect_and_process_temperatures,
}
use tt_riingd.Monitoring.Batches.{demands, speeds_of, speeds_for, batch_of_speeds}

module _ (R : Floats) (laws : IeeeLaws R) (cache : MappingCache R.F) where
  -- A fan with an active curve that is there and usable, on a channel that fits a `u8`.
  pub record IsDriven (fan : FanRef) : Type 0 where
    pub small : fan.channel < 256
    pub name : String
    pub active : get_curve_for_fan cache.active_curves fan ≡ some name
    pub curve : CurveCfg R.F
    pub found : find_curve name cache.curves ≡ some curve
    pub usable : IsUsable R laws curve

  speed_of_fan-IsDriven :
      (temp : R.F) (fan : FanRef)
      → IsDriven fan
      → (speed : ℕ) × (speed_of_fan R cache temp fan ≡ ok speed)
  unfolding calculate_fan_speed
  speed_of_fan-IsDriven temp fan d =
      let (speed, e) = calculate_speed_total R laws d.curve temp d.usable in
      let fits : ltb fan.channel 256 ≡ true = let h = d.small in ground arith in
      (
        speed,
        ap
              (λ b. (if b then ok fan.channel else err large_channel) >>= λ channel.
                calculate_fan_speed R fan temp cache)
              fits
            ∙ ap
                (λ o. ok_or o no_active_curve >>= λ name.
                  ok_or (find_curve name cache.curves) curve_not_found >>= λ curve.
                  calculate_speed R curve temp)
                d.active
            ∙ ap (λ o. ok_or o curve_not_found >>= λ curve. calculate_speed R curve temp) d.found
            ∙ e,
      )

  speeds_of-AreDriven :
      (ds : List (FanRef × R.F))
      → All (λ d. IsDriven d.0) ds
      → (speeds : List (FanRef × ℕ)) × (speeds_of R cache ds ≡ ok speeds)
  speeds_of-AreDriven [] h = ([], refl)
  speeds_of-AreDriven ((fan, temp) ∷ ds) (h, hs) =
      let (speed, e) = speed_of_fan-IsDriven temp fan h in
      let (speeds, es) = speeds_of-AreDriven ds hs in
      (
        (fan, speed) ∷ speeds,
        ap (λ r. r >>= λ s. speeds_of R cache ds >>= λ ss. ok ((fan, s) ∷ ss)) e
            ∙ ap (λ r. r >>= λ ss. ok ((fan, speed) ∷ ss)) es,
      )

module _ (R : Floats) (laws : IeeeLaws R) (C : FanController) where
  -- A tick in which each fan of a sensor that could be read is driven by a usable curve succeeds,
  -- whatever the temperatures are: it sends one batch, which holds for each controller the speeds of its
  -- fans, and keeps the temperatures.
  pub driven_tick :
      (sensors : List (String × Option R.F)) (cache : MonitoringCache R.F) (m : ControllerManager C)
      → All (λ d. IsDriven R laws cache.mapping_cache d.0) (demands R cache.mapping_cache sensors)
      → (speeds : List (FanRef × ℕ)) × (buffer : MonitoringBuffer R.F) × (speeds_of R
            cache.mapping_cache
            (demands R cache.mapping_cache sensors)
          ≡ ok speeds)
        × ((id : String) → or_default (lookup id buffer.batch_data) ≡ speeds_for id speeds)
        × IsMap buffer.batch_data
        × (collect_and_process_temperatures R C sensors cache m ≡ (
          ok tt,
          record cache { sensor_data = buffer.temp_data },
          (batch_update C (batch_speeds buffer.batch_data) blocking m).1,
        ))
  unfolding collect_and_process_temperatures
  driven_tick sensors cache m driven =
      let (speeds, e) =
        speeds_of-AreDriven R laws cache.mapping_cache (demands R cache.mapping_cache sensors)
          driven in
      let (buffer, made, grouped, once) = batch_of_speeds R cache.mapping_cache sensors speeds e in
      (speeds, buffer, e, grouped, once, ap (λ r. send_batch R C r cache m) made)
