-- ===== src/Event/Single.antt =====
-- core/event.rs and core/macros.rs: the requests to one service.
use tt_riingd.Common.{
  List, [], ◌∷◌, String, Option, none, some, Bool, true, false, Result, ok, err, panic, ◌≡◌, refl,
  no_handler, reply_lost,
}
use tt_riingd.Config.{Config}
use tt_riingd.Event.{
  ServiceType, monitoring, fan_color, RequestPayload, get_temperature, get_all_sensor_data,
  get_color, health_check, set_color, set_temperature, Response, Services, prepare_targets,
  with_response, ask_registered, execute_multiple,
}

-- The queries and commands that `impl_single_target_request!` makes requests.
pub data SingleRequest (F : Type 0) : Type 0 where
  get_temperature_query : (device_id : String) → SingleRequest F
  get_all_sensor_data_query : SingleRequest F
  get_color_query : (device_id : String) → SingleRequest F
  set_color_command : (device_id color : String) → SingleRequest F
  set_temperature_command : (device_id : String) (temperature : F) → SingleRequest F

module _ {F : Type 0} where
  abbrev pub target : SingleRequest F → ServiceType
  target (get_temperature_query id) = monitoring
  target get_all_sensor_data_query = monitoring
  target (get_color_query id) = fan_color
  target (set_color_command id color) = fan_color
  target (set_temperature_command id t) = monitoring

  abbrev pub payload : SingleRequest F → RequestPayload F
  payload (get_temperature_query id) = get_temperature id
  payload get_all_sensor_data_query = get_all_sensor_data
  payload (get_color_query id) = get_color id
  payload (set_color_command id color) = set_color id color
  payload (set_temperature_command id t) = set_temperature id t

module _ {F : Type 0} (S : Services F) where
  -- `response_rx.await?`.
  abbrev pub answered : Option (Result (Response F)) → Result (Response F)
  answered none = err reply_lost
  answered (some r) = r

  abbrev pub ask_handler :
      Bool → Config F → ServiceType → RequestPayload F → S.State → Result (Response F) × S.State
  ask_handler true config service p s =
      let (answer, s') = S.ask config service p s in (answered answer, s')
  ask_handler false config service p s = (err no_handler, s)

  unfoldable pub execute_single :
      Config F → ServiceType → RequestPayload F → S.State → Result (Response F) × S.State
  execute_single config service p s = ask_handler (S.has_handler service s) config service p s

  unfoldable pub execute : Config F → SingleRequest F → S.State → Result (Response F) × S.State
  unfolding execute_single
  execute config request s = execute_single config (target request) (payload request) s

  -- `HealthCheckQuery`, to the same services as the preparation of a configuration.
  unfoldable pub execute_health_check :
      Config F → S.State → List (ServiceType × Response F) × S.State
  unfolding execute_multiple
  execute_health_check config s = execute_multiple S config health_check prepare_targets s

  abbrev pub kept_response : ServiceType → Result (Response F) → List (ServiceType × Response F)
  kept_response service (ok response) = (service, response) ∷ []
  kept_response service (err e) = []
  kept_response service panic = []

  asked_alike :
      (b : Bool) (config : Config F) (service : ServiceType) (p : RequestPayload F) (s : S.State)
      → let (answer, s') = ask_registered S b config service p s in
        let (r, s'') = ask_handler b config service p s in
        (with_response S answer service [] ≡ kept_response service r) × (s' ≡ s'')
  asked_alike true config service p s = (dropped (S.ask config service p s).0, refl)
    where
      dropped :
          (o : Option (Result (Response F)))
          → with_response S o service [] ≡ kept_response service (answered o)
      dropped none = refl
      dropped (some (ok r)) = refl
      dropped (some (err e)) = refl
      dropped (some panic) = refl
  asked_alike false config service p s = (refl, refl)

  -- A request to several services that is sent to one of them leaves the service in the same state as a
  -- request to it alone, and has the same response; but where that fails, for want of a handler, by an
  -- error or by a lost reply, it has no response at all, and no error.
  pub execute_multiple-single :
      (config : Config F) (service : ServiceType) (p : RequestPayload F) (s : S.State)
      → let (responses, s') = execute_multiple S config p (service ∷ []) s in
        let (r, s'') = execute_single config service p s in
        (responses ≡ kept_response service r) × (s' ≡ s'')
  unfolding execute_multiple execute_single
  execute_multiple-single config service p s =
      asked_alike (S.has_handler service s) config service p s
