-- ===== src/Config/Changes.antt =====
-- `Config::analyze_changes` of config/cfg.rs, and the `PartialEq` that is derived for what it compares.
use tt_riingd.Common.{
  List, [], ◌∷◌, ◌++◌, String, Bool, true, false, not, ◌&&◌, ◌≡◌, ◌↔◌, Eq, ◌==◌, nat_eq, string_eq,
  option_eq, list_eq, option_beq_iff, list_beq_iff, arith,
}
use text.Mathlib.TextEquality.{eq_iff}
use tt_riingd.Config.{
  UsbSelector, FanCfg, ControllerCfg, riing_quad, SensorCfg, lm_sensors, nvidia, Config,
}

abbrev pub usb_beq : UsbSelector → UsbSelector → Bool
usb_beq u v = u.vid == v.vid && (u.pid == v.pid && u.serial == v.serial)

usb_beq_iff : (u v : UsbSelector) → (usb_beq u v ≡ true) ↔ (u ≡ v)
usb_beq_iff u v = ground (arith, option_beq_iff u.serial v.serial)

abbrev pub fan_cfg_beq : FanCfg → FanCfg → Bool
fan_cfg_beq f g = f.idx == g.idx && f.name == g.name

pub fan_cfg_beq_iff : (f g : FanCfg) → (fan_cfg_beq f g ≡ true) ↔ (f ≡ g)
fan_cfg_beq_iff f g = ground (arith, eq_iff f.name g.name)

instance abbrev pub fan_cfg_eq : Eq FanCfg
fan_cfg_eq = record { beq = fan_cfg_beq; beq_iff = fan_cfg_beq_iff }

abbrev pub controller_beq : ControllerCfg → ControllerCfg → Bool
controller_beq (riing_quad id usb fans) (riing_quad id' usb' fans') =
    id == id' && (usb_beq usb usb' && fans == fans')

pub controller_beq_iff : (c d : ControllerCfg) → (controller_beq c d ≡ true) ↔ (c ≡ d)
controller_beq_iff (riing_quad id usb fans) (riing_quad id' usb' fans') =
    ground (arith, eq_iff id id', usb_beq_iff usb usb', list_beq_iff fans fans')

instance abbrev pub controller_eq : Eq ControllerCfg
controller_eq = record { beq = controller_beq; beq_iff = controller_beq_iff }

abbrev pub sensor_beq : SensorCfg → SensorCfg → Bool
sensor_beq (lm_sensors id chip feature) (lm_sensors id' chip' feature') =
    id == id' && (chip == chip' && feature == feature')
sensor_beq (nvidia id gpu_index) (nvidia id' gpu_index') = id == id' && gpu_index == gpu_index'
sensor_beq _ _ = false

pub sensor_beq_iff : (s t : SensorCfg) → (sensor_beq s t ≡ true) ↔ (s ≡ t)
sensor_beq_iff (lm_sensors id chip feature) (lm_sensors id' chip' feature') =
    ground (arith, eq_iff id id', eq_iff chip chip', eq_iff feature feature')
sensor_beq_iff (nvidia id gpu_index) (nvidia id' gpu_index') = ground (arith, eq_iff id id')
sensor_beq_iff (lm_sensors id chip feature) (nvidia id' gpu_index') = ground arith
sensor_beq_iff (nvidia id gpu_index) (lm_sensors id' chip' feature') = ground arith

instance abbrev pub sensor_eq : Eq SensorCfg
sensor_eq = record { beq = sensor_beq; beq_iff = sensor_beq_iff }

pub data ConfigChangeType : Type 0 where
  hot_reload : ConfigChangeType
  cold_restart : (changed_sections : List String) → ConfigChangeType

abbrev pub changed_when : Bool → String → List String → List String
changed_when true section sections = sections ++ section ∷ []
changed_when false section sections = sections

abbrev pub change_type : List String → ConfigChangeType
change_type [] = hot_reload
change_type (s ∷ sections) = cold_restart (s ∷ sections)

unfoldable pub analyze_changes : {F : Type 0} → Config F → Config F → ConfigChangeType
analyze_changes old new =
    let sections = changed_when (not (old.controllers == new.controllers)) "controllers" [] in
    change_type (changed_when (not (old.sensors == new.sensors)) "sensors" sections)

-- A change can be reloaded just when it leaves the controllers and the sensors as they are,
-- whatever it does to curves, mappings, effects and intervals.
pub analyze_changes-hot_iff :
    {F : Type 0} (old new : Config F)
    → (analyze_changes old new ≡ hot_reload)
      ↔ ((old.controllers ≡ new.controllers) × (old.sensors ≡ new.sensors))
unfolding analyze_changes
analyze_changes-hot_iff old new =
    ground
      (arith, list_beq_iff old.controllers new.controllers, list_beq_iff old.sensors new.sensors)
