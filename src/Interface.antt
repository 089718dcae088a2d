-- ===== src/Interface.antt =====
-- interface/dbus_interface.rs with providers/dbus.rs, providers/broadcast.rs and config/fan_curve.rs: the
-- requests over D-Bus, and the broadcast of the state. D-Bus itself and serde_json are parameters, and a
-- notification has a receiver.
pub mod Agreement
pub mod Applied
use tt_riingd.Common.{
  ℕ, ◌*◌, List, [], ◌∷◌, ◌++◌, Option, none, some, eqb, if◌then◌else◌, String, Bool, true, false,
  Result, Error, ok, err, panic, ◌>>=◌, ◌>>◌,
}
use tt_riingd.Config.{Config, CurveCfg, constant, step_curve, bezier, Point}
use tt_riingd.Config.Changes.{ConfigChangeType, hot_reload, cold_restart}
use tt_riingd.Config.Load.{analyze_config_changes}
use tt_riingd.Registry.{HidApi}
use tt_riingd.Event.{Event, config_change_detected, system_shutdown, temperature_changed}

-- What `reload_config` answers, without the wording.
pub data ReloadAnswer : Type 0 where
  applied : ReloadAnswer
  restart_required : (sections : List String) → ReloadAnswer

abbrev pub answer_of : ConfigChangeType → ReloadAnswer
answer_of hot_reload = applied
answer_of (cold_restart sections) = restart_required sections

module _ {F : Type 0} where
  -- `stop`: the signal, whose outcome is a parameter, and then the notification.
  unfoldable pub stop : Result (Unit {0}) → Result (Unit {0}) × List (Event F)
  stop (ok t) = (ok tt, system_shutdown ∷ [])
  stop (err e) = (err e, [])
  stop panic = (panic, [])

  abbrev pub answer_change : Result ConfigChangeType → Result ReloadAnswer × List (Event F)
  answer_change (ok change) = (ok (answer_of change), config_change_detected change ∷ [])
  answer_change (err e) = (err e, [])
  answer_change panic = (panic, [])

  unfoldable pub reload_config :
      HidApi
      → (String → Result (Config F))
      → Result String
      → Config F
      → Result ReloadAnswer × List (Event F)
  reload_config api from_str content config =
      answer_change (analyze_config_changes api from_str content config)

  -- `broadcast_current_state`: the map is always empty.
  unfoldable pub broadcast_current_state : List (Event F)
  broadcast_current_state = temperature_changed [] ∷ []

  -- The period of the broadcast, in seconds.
  abbrev pub broadcast_period : Config F → ℕ
  broadcast_period config = config.tick_seconds * 2

-- What `select!` of a service without requests takes next: the token, or its timer.
pub data TimerTurn : Type 0 where
  cancelled : TimerTurn
  ticked : TimerTurn

module _ {F : Type 0} where
  unfoldable pub broadcast_loop : List TimerTurn → Option (Result (Unit {0})) × List (Event F)
  unfolding broadcast_current_state
  broadcast_loop [] = (none, [])
  broadcast_loop (cancelled ∷ turns) = (some (ok tt), [])
  broadcast_loop (ticked ∷ turns) =
      let (r, events) = broadcast_loop turns in (r, broadcast_current_state ++ events)

  -- The service: its result, or `none` while it runs, and what it publishes. The period is read once, and
  -- tokio's `interval` panics on a period of zero.
  unfoldable pub run_broadcast_service :
      Config F → List TimerTurn → Option (Result (Unit {0})) × List (Event F)
  unfolding broadcast_loop
  run_broadcast_service config turns =
      if eqb (broadcast_period config) 0 then (some panic, []) else broadcast_loop turns

unfoldable pub dbus_loop : List TimerTurn → Option (Result (Unit {0}))
dbus_loop [] = none
dbus_loop (cancelled ∷ turns) = some (ok tt)
dbus_loop (ticked ∷ turns) = dbus_loop turns

abbrev pub then_serve : Result (Unit {0}) → List TimerTurn → Option (Result (Unit {0}))
then_serve (ok t) turns = dbus_loop turns
then_serve (err e) turns = some (err e)
then_serve panic turns = some panic

-- Registration of the interface and of the name on the bus come first, each by its `?`.
unfoldable pub run_dbus_service :
    (registered named : Result (Unit {0})) → List TimerTurn → Option (Result (Unit {0}))
run_dbus_service registered named turns = then_serve (registered >> named) turns

pub data FanCurve (F : Type 0) : Type 0 where
  constant_curve : (speed : ℕ) → FanCurve F
  steps : (temps : List F) (speeds : List ℕ) → FanCurve F
  bezier_curve : (points : List (Point F)) → FanCurve F

module _ {F : Type 0} where
  -- `impl PartialEq for FanCurve`: only the kinds are compared.
  unfoldable pub curve_eq : FanCurve F → FanCurve F → Bool
  curve_eq (constant_curve s) (constant_curve s') = true
  curve_eq (bezier_curve ps) (bezier_curve ps') = true
  curve_eq (steps ts ss) (steps ts' ss') = true
  curve_eq _ _ = false

  -- `From<&CurveCfg>`.
  abbrev pub fan_curve_of : CurveCfg F → FanCurve F
  fan_curve_of (constant id speed) = constant_curve speed
  fan_curve_of (step_curve id tmps spds) = steps tmps spds
  fan_curve_of (bezier id points) = bezier_curve points

  -- `update_curve_data` reads the curve and drops it.
  unfoldable pub update_curve_data : (String → Result (FanCurve F)) → String → Result (Unit {0})
  update_curve_data from_json curve_data = from_json curve_data >>= λ curve. ok tt
