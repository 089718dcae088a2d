-- ===== src/Event.antt =====
-- core/event.rs: requests, responses and notifications, and the request to several services.
-- `F` stands for `f32`. The services are an interface: each has a task that takes the requests of its
-- channel, and a subscription to the notifications.
pub mod Single
pub mod Broker
use tt_riingd.Common.{
  ℕ, List, [], ◌∷◌, String, Option, none, some, Bool, true, false, Result, ok, err, panic, Dict,
}
use tt_riingd.Config.{Config}
use tt_riingd.Config.Changes.{ConfigChangeType}

pub data ServiceType : Type 0 where
  monitoring fan_color broadcast coordinator : ServiceType

abbrev pub service_beq : ServiceType → ServiceType → Bool
service_beq monitoring monitoring = true
service_beq fan_color fan_color = true
service_beq broadcast broadcast = true
service_beq coordinator coordinator = true
service_beq _ _ = false

pub data RequestPayload (F : Type 0) : Type 0 where
  get_temperature : (device_id : String) → RequestPayload F
  get_all_sensor_data : RequestPayload F
  get_color : (device_id : String) → RequestPayload F
  health_check : RequestPayload F
  set_color : (device_id color : String) → RequestPayload F
  set_temperature : (device_id : String) (temperature : F) → RequestPayload F
  prepare_config_update : (transaction_id : ℕ) → RequestPayload F
  prepare_shutdown : RequestPayload F
  commit_config_update_request : (transaction_id : ℕ) → RequestPayload F
  rollback_config_update_request : (transaction_id : ℕ) → RequestPayload F

pub data Response (F : Type 0) : Type 0 where
  temperature : (device_id : String) (value : F) → Response F
  sensor_data : (sensors : Dict String F) → Response F
  color : (device_id name : String) → Response F
  health : (service : ServiceType) (status : String) → Response F
  success : Response F
  error : (message : String) → Response F

pub data Event (F : Type 0) : Type 0 where
  temperature_changed : (sensors : Dict String F) → Event F
  config_reloaded : Event F
  config_change_detected : ConfigChangeType → Event F
  commit_config_update : (transaction_id : ℕ) → Event F
  rollback_config_update : (transaction_id : ℕ) → Event F
  device_connected : (vendor_id product_id : ℕ) (serial_number : Option String) → Event F
  device_disconnected : (vendor_id product_id : ℕ) (serial_number : Option String) → Event F
  system_shutdown : Event F

-- The targets of `PrepareConfigUpdateCommand`.
abbrev pub prepare_targets : List ServiceType
prepare_targets = monitoring ∷ fan_color ∷ broadcast ∷ []

pub record Services (F : Type 0) : Type 1 where
  pub State : Type 0
  -- Whether the service has registered a handler.
  pub has_handler : ServiceType → State → Bool
  -- What the service's task answers under a configuration; `none` if it ended before its answer.
  pub ask : Config F → ServiceType → RequestPayload F → State → Option (Result (Response F)) × State
  -- A notification reaches the tasks that run.
  pub notify : Event F → State → State

module _ {F : Type 0} (S : Services F) where
  abbrev pub with_response :
      Option (Result (Response F))
      → ServiceType
      → List (ServiceType × Response F)
      → List (ServiceType × Response F)
  with_response (some (ok response)) service responses = (service, response) ∷ responses
  with_response (some (err e)) service responses = responses
  with_response (some panic) service responses = responses
  with_response none service responses = responses

  abbrev pub ask_registered :
      Bool
      → Config F
      → ServiceType
      → RequestPayload F
      → S.State
      → Option (Result (Response F)) × S.State
  ask_registered true config service payload s = S.ask config service payload s
  ask_registered false config service payload s = (none, s)

  -- `execute_multiple`: services without a handler are left out, and so are answers that are errors
  -- or were lost. The services are distinct, and each works on its own state, so they are asked one
  -- after the other.
  unfoldable pub execute_multiple :
      Config F
      → RequestPayload F
      → List ServiceType
      → S.State
      → List (ServiceType × Response F) × S.State
  execute_multiple config payload [] s = ([], s)
  execute_multiple config payload (service ∷ targets) s =
      let (answer, s') = ask_registered (S.has_handler service s) config service payload s in
      let (responses, s'') = execute_multiple config payload targets s' in
      (with_response answer service responses, s'')
