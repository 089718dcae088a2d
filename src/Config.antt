-- ===== src/Config.antt =====
-- config/cfg.rs, the sections of the configuration file. `F` stands for `f32`. A `u8`, `u16` or
-- `u32` is a number.
pub mod Changes
pub mod Load
pub mod Loaded
pub mod Locate
use tt_riingd.Common.{
  ℕ, List, [], ◌∷◌, String, Option, Bool, false, Result, ok, panic, if◌then◌else◌, ltb, length,
}
use tt_riingd.Protocol.{Rgb}

pub record UsbSelector : Type 0 where
  pub vid : ℕ
  pub pid : ℕ
  pub serial : Option String

pub record FanCfg : Type 0 where
  pub idx : ℕ
  pub name : String

pub data ControllerCfg : Type 0 where
  riing_quad : (id : String) (usb : UsbSelector) (fans : List FanCfg) → ControllerCfg

pub record Point (F : Type 0) : Type 0 where
  pub x : F
  pub y : F

pub data CurveCfg (F : Type 0) : Type 0 where
  constant : (id : String) (speed : ℕ) → CurveCfg F
  step_curve : (id : String) (tmps : List F) (spds : List ℕ) → CurveCfg F
  bezier : (id : String) (points : List (Point F)) → CurveCfg F

pub data SensorCfg : Type 0 where
  lm_sensors : (id chip feature : String) → SensorCfg
  nvidia : (id : String) (gpu_index : ℕ) → SensorCfg

pub record FanTarget : Type 0 where
  pub controller_id : String
  pub fan_idx : ℕ

pub record MappingCfg : Type 0 where
  pub sensor : String
  pub targets : List FanTarget

pub record CurveMappingCfg : Type 0 where
  pub curve : String
  pub targets : List FanTarget

pub record EffectMappingCfg : Type 0 where
  pub effect : String
  pub targets : List FanTarget

pub data EffectCfg : Type 0 where
  constant_color : (id : String) (rgb : Rgb) → EffectCfg
  rainbow : (id : String) (duration : ℕ) → EffectCfg
  breathing : (id : String) (color : Rgb) (duration : ℕ) → EffectCfg
  fade : (id : String) (color : Rgb) (duration : ℕ) → EffectCfg

pub record Config (F : Type 0) : Type 0 where
  pub version : ℕ
  pub tick_seconds : ℕ
  pub enable_broadcast : Bool
  pub broadcast_interval : ℕ
  pub controllers : List ControllerCfg
  pub curves : List (CurveCfg F)
  pub sensors : List SensorCfg
  pub mappings : List MappingCfg
  pub active_curve_mappings : List CurveMappingCfg
  pub effects : List EffectCfg
  pub effect_mappings : List EffectMappingCfg

-- `Config::default`.
abbrev pub default_config : {F : Type 0} → Config F
default_config = record {
  version = 1;
  tick_seconds = 2;
  enable_broadcast = false;
  broadcast_interval = 2;
  controllers = [];
  curves = [];
  sensors = [];
  mappings = [];
  active_curve_mappings = [];
  effects = [];
  effect_mappings = [];
}

abbrev pub controller_id : ControllerCfg → String
controller_id (riing_quad id usb fans) = id

-- `try_into().unwrap()` panics when the count does not fit a `u8`.
abbrev pub fans_count : ControllerCfg → Result ℕ
fans_count (riing_quad id usb fans) = if ltb (length fans) 256 then ok (length fans) else panic

abbrev pub curve_id : {F : Type 0} → CurveCfg F → String
curve_id (constant id speed) = id
curve_id (step_curve id tmps spds) = id
curve_id (bezier id points) = id

abbrev pub effect_id : EffectCfg → String
effect_id (constant_color id rgb) = id
effect_id (rainbow id duration) = id
effect_id (breathing id color duration) = id
effect_id (fade id color duration) = id
