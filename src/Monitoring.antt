-- ===== src/Monitoring.antt =====
-- providers/monitoring.rs: the mappings that the monitoring service works with, and how a new
-- configuration is staged beside them and takes their place. `F` stands for `f32`.
pub mod Tick
pub mod Batches
pub mod Driven
pub mod Delivered
pub mod Service
use tt_riingd.Common.{List, [], String, Option, some, Bool, true, Dict, Result, ok, err, unhandled}
use tt_riingd.Config.{Config, CurveCfg}
use tt_riingd.Mapping.{FanRef, Mapping, no_mapping, load_mappings, load_curve_mappings}
use tt_riingd.Event.{
  Services, ServiceType, monitoring, RequestPayload, prepare_config_update, Response, success,
  Event, commit_config_update,
}

pub record MappingCache (F : Type 0) : Type 0 where
  pub mappings : Mapping
  pub curves : List (CurveCfg F)
  pub active_curves : Dict FanRef String

-- The last temperatures, and the two `ArcSwap` cells.
pub record MonitoringCache (F : Type 0) : Type 0 where
  pub sensor_data : Dict String F
  pub mapping_cache : MappingCache F
  pub new_mapping : MappingCache F

module _ {F : Type 0} where
  abbrev pub empty_cache : MappingCache F
  empty_cache = record { mappings = no_mapping; curves = []; active_curves = [] }

  unfoldable pub mapping_cache_of : Config F → MappingCache F
  mapping_cache_of config = record {
    mappings = load_mappings config.mappings;
    curves = config.curves;
    active_curves = load_curve_mappings config.active_curve_mappings;
  }

  -- `MonitoringServiceProvider::new`.
  abbrev pub new_monitoring : Config F → MonitoringCache F
  new_monitoring config = record {
    sensor_data = [];
    mapping_cache = mapping_cache_of config;
    new_mapping = empty_cache;
  }

  unfoldable pub handle_event :
      Config F → RequestPayload F → MonitoringCache F → Result (Response F) × MonitoringCache F
  handle_event config (prepare_config_update id) cache =
      (ok success, record cache { new_mapping = mapping_cache_of config })
  handle_event config _ cache = (err unhandled, cache)

  unfoldable pub handle_notify : Event F → MonitoringCache F → MonitoringCache F
  handle_notify (commit_config_update id) cache = record cache { mapping_cache = cache.new_mapping }
  handle_notify _ cache = cache

  -- The monitoring service beside the other ones.
  abbrev pub ask_monitoring :
      Config F
      → RequestPayload F
      → MonitoringCache F
      → Option (Result (Response F)) × MonitoringCache F
  ask_monitoring config payload cache =
      let (answer, cache') = handle_event config payload cache in (some answer, cache')

  abbrev pub ask_one :
      (others : Services F)
      → Config F
      → ServiceType
      → RequestPayload F
      → MonitoringCache F × others.State
      → Option (Result (Response F)) × (MonitoringCache F × others.State)
  ask_one others config monitoring payload (cache, rest) =
      let (answer, cache') = ask_monitoring config payload cache in (answer, (cache', rest))
  ask_one others config service payload (cache, rest) =
      let (answer, rest') = others.ask config service payload rest in (answer, (cache, rest'))

  abbrev pub handles : (others : Services F) → ServiceType → MonitoringCache F × others.State → Bool
  handles others monitoring s = true
  handles others service (cache, rest) = others.has_handler service rest

  abbrev pub with_monitoring : Services F → Services F
  with_monitoring others = record {
    State = MonitoringCache F × others.State;
    has_handler = handles others;
    ask = ask_one others;
    notify = λ event s. (handle_notify event s.0, others.notify event s.1);
  }
