-- ===== src/Sensors.antt =====
-- temperature_sensors: the sources of temperatures. The libraries of lm-sensors and NVML are
-- parameters, by what they answer at the time of a call; a status of NVML is a number.
pub mod Discovery
pub mod Library
use tt_riingd.Common.{
  ℕ, zero, suc, ◌+◌, List, [], ◌∷◌, ◌++◌, String, Option, none, some, or_else, Bool, true, false,
  ◌||◌, Result, ok, err, panic, ◌>>=◌, ok_or, if◌then◌else◌, find, eqb, ltb, ◌==◌, string_eq,
  nvml_failed, no_nvml, wrong_value,
}
use tt_riingd.Floats.{Floats}
use tt_riingd.Config.{SensorCfg, lm_sensors, nvidia}

pub record Nvml : Type 1 where
  pub Handle : Type 0
  pub init_status : ℕ
  pub get_count : ℕ × ℕ
  pub get_handle : ℕ → ℕ × Handle
  pub get_name : Handle → ℕ × String
  pub get_temperature : Handle → ℕ × ℕ

-- `NVML_SUCCESS` is 0.
abbrev pub checked {ℓ} : {A : Type ℓ} → ℕ × A → Result A
checked (zero, a) = ok a
checked (suc status, a) = err nvml_failed

-- `NvmlLibrary::init`: 5 says that the library is initialized already.
abbrev pub nvml_init : Nvml → Result (Unit {0})
nvml_init nvml = if eqb nvml.init_status 0 || eqb nvml.init_status 5 then ok tt else err nvml_failed

abbrev pub device_count : Nvml → Result ℕ
device_count nvml = checked nvml.get_count

abbrev pub device_handle : (nvml : Nvml) → ℕ → Result nvml.Handle
device_handle nvml index = checked (nvml.get_handle index)

abbrev pub device_name : (nvml : Nvml) → nvml.Handle → Result String
device_name nvml h = checked (nvml.get_name h)

abbrev pub device_temperature : (nvml : Nvml) → nvml.Handle → Result ℕ
device_temperature nvml h = checked (nvml.get_temperature h)

-- The `static NVML`: whether the library was loaded, and then initialized.
abbrev pub usable : Result (Unit {0}) → Nvml → Option Nvml
usable (ok t) nvml = some nvml
usable (err e) nvml = none
usable panic nvml = none

abbrev pub nvml_library : Option Nvml → Option Nvml
nvml_library none = none
nvml_library (some nvml) = usable (nvml_init nvml) nvml

-- A sub-feature of lm-sensors gives a value, which is a temperature or is not.
pub data LmValue (F : Type 0) : Type 0 where
  temperature_input : (t : F) → LmValue F
  other_value : LmValue F

pub record SubFeature : Type 0 where
  pub id : ℕ
  pub is_temperature_input : Bool

-- A feature without a readable name is called N/A.
pub record Feature : Type 0 where
  pub name : Option String
  pub sub_features : List SubFeature

-- A chip, with its name if it can be read.
pub record Chip : Type 0 where
  pub name : Option String
  pub features : List Feature

pub data Sensor (F : Type 0) : Type 0 where
  lm_source : (key : String) (subf : ℕ) → Sensor F
  nvidia_sensor : (sensor_key : String) (gpu_index : ℕ) (gpu_name : String) → Sensor F
  dummy_source : (key : String) (temperature : F) → Sensor F

abbrev pub key : {F : Type 0} → Sensor F → String
key (lm_source k subf) = k
key (nvidia_sensor k index name) = k
key (dummy_source k t) = k

abbrev pub unwrap_or : Option String → String → String
unwrap_or none d = d
unwrap_or (some s) d = s

abbrev pub feature_name : Feature → String
feature_name f = unwrap_or f.name "N/A"

abbrev pub find_temperature : Option Feature → Option SubFeature
find_temperature none = none
find_temperature (some f) = find (λ s. s.is_temperature_input) f.sub_features

abbrev pub find_feature : String → Option Chip → Option Feature
find_feature feature none = none
find_feature feature (some c) = find (λ f. feature_name f == feature) c.features

abbrev pub is_named : String → Option String → Bool
is_named s none = false
is_named s (some name) = name == s

-- The sub-feature that a configuration names.
abbrev pub find_input : String → String → Option (List Chip) → Option SubFeature
find_input chip feature none = none
find_input chip feature (some chips) =
    find_temperature (find_feature feature (find (λ c. is_named chip c.name) chips))

abbrev pub nvidia_configs : List SensorCfg → List (String × ℕ)
nvidia_configs [] = []
nvidia_configs (nvidia id index ∷ cfg) = (id, index) ∷ nvidia_configs cfg
nvidia_configs (lm_sensors id chip feature ∷ cfg) = nvidia_configs cfg

module _ {F : Type 0} where
  abbrev pub lm_found : String → Option SubFeature → List (Sensor F)
  lm_found id none = []
  lm_found id (some s) = lm_source id s.id ∷ []

  -- `LmSensorSource::discover`; `chips` is `none` if the library could not be initialized.
  unfoldable pub lm_discover : Option (List Chip) → List SensorCfg → List (Sensor F)
  lm_discover chips [] = []
  lm_discover chips (lm_sensors id chip feature ∷ cfg) =
      lm_found id (find_input chip feature chips) ++ lm_discover chips cfg
  lm_discover chips (nvidia id index ∷ cfg) = lm_discover chips cfg

  unfoldable pub create_sensor_for_gpu : Nvml → ℕ → String → Result (Sensor F)
  create_sensor_for_gpu nvml gpu_index sensor_id = do
    handle ← device_handle nvml gpu_index
    name ← device_name nvml handle
    ok (nvidia_sensor sensor_id gpu_index name)

  abbrev pub if_created : Result (Sensor F) → List (Sensor F)
  if_created (ok s) = s ∷ []
  if_created (err e) = []
  if_created panic = []

  -- The loops of `NvidiaSensor::discover`: over all GPUs, named by `gpu_key`, and over those of the
  -- configuration.
  unfoldable pub discover_all : Nvml → (ℕ → String) → ℕ → List (Sensor F)
  unfolding create_sensor_for_gpu
  discover_all nvml gpu_key zero = []
  discover_all nvml gpu_key (suc n) =
      discover_all nvml gpu_key n ++ if_created (create_sensor_for_gpu nvml n (gpu_key n))

  unfoldable pub discover_configured : Nvml → ℕ → List (String × ℕ) → List (Sensor F)
  unfolding create_sensor_for_gpu
  discover_configured nvml count [] = []
  discover_configured nvml count ((id, index) ∷ configs) =
      let rest = discover_configured nvml count configs in
      if ltb index count then if_created (create_sensor_for_gpu nvml index id) ++ rest else rest

  abbrev pub discover_counted : Nvml → (ℕ → String) → Result ℕ → List (String × ℕ) → List (Sensor F)
  discover_counted nvml gpu_key (ok count) [] = discover_all nvml gpu_key count
  discover_counted nvml gpu_key (ok count) (c ∷ configs) =
      discover_configured nvml count (c ∷ configs)
  discover_counted nvml gpu_key (err e) configs = []
  discover_counted nvml gpu_key panic configs = []

  unfoldable pub nvidia_discover : Option Nvml → (ℕ → String) → List SensorCfg → List (Sensor F)
  unfolding discover_all discover_configured
  nvidia_discover none gpu_key cfg = []
  nvidia_discover (some nvml) gpu_key cfg =
      discover_counted nvml gpu_key (device_count nvml) (nvidia_configs cfg)

module _ (R : Floats) where
  -- `DummySensorSource::discover`.
  abbrev pub dummy_discover : List (Sensor R.F)
  dummy_discover = dummy_source "dummy_sensor" (R.of_nat 45) ∷ []

  -- `SensorManager::init_from_cfg`.
  unfoldable pub init_sensors :
      Option (List Chip) → Option Nvml → (ℕ → String) → List SensorCfg → List (Sensor R.F)
  unfolding lm_discover nvidia_discover
  init_sensors chips nvml gpu_key cfg =
      (lm_discover chips cfg ++ nvidia_discover nvml gpu_key cfg) ++ dummy_discover

  unfoldable pub find_by_key : String → List (Sensor R.F) → Option (Sensor R.F)
  find_by_key k sensors = find (λ s. key s == k) sensors

  abbrev pub lm_temperature : Result (LmValue R.F) → Result R.F
  lm_temperature (ok (temperature_input t)) = ok t
  lm_temperature (ok other_value) = err wrong_value
  lm_temperature (err e) = err e
  lm_temperature panic = panic

  -- `read_temperature`, with the values of lm-sensors and the answers of NVML at that time.
  unfoldable pub read_temperature :
      (ℕ → Result (LmValue R.F)) → Option Nvml → Sensor R.F → Result R.F
  read_temperature value nvml (lm_source k subf) = lm_temperature (value subf)
  read_temperature value none (nvidia_sensor k index name) = err no_nvml
  read_temperature value (some nvml) (nvidia_sensor k index name) = do
    handle ← device_handle nvml index
    temp ← device_temperature nvml handle
    ok (R.of_nat temp)
  read_temperature value nvml (dummy_source k t) = ok t
