-- ===== src/Event/Broker.antt =====
-- `MessageBroker` of core/event.rs with the requests of core/macros.rs: the table of handlers, and the
-- requests that go through it. The channels of tokio are a parameter: the tasks at the far ends of the
-- request channels, by the numbers of these, and the broadcast channel of the notifications.
pub mod Table
use tt_riingd.Common.{
  ℕ, List, [], ◌∷◌, Option, none, some, Bool, true, false, Result, ◌≡◌, ◌↔◌, Dict, lookup, insert,
  is_some, length, Eq, arith,
}
use tt_riingd.Config.{Config}
use tt_riingd.Event.{
  ServiceType, monitoring, fan_color, broadcast, coordinator, service_beq, RequestPayload,
  health_check, prepare_config_update, prepare_shutdown, commit_config_update_request,
  rollback_config_update_request, Response, Event, Services, prepare_targets, execute_multiple,
}

pub service_beq_iff : (a b : ServiceType) → (service_beq a b ≡ true) ↔ (a ≡ b)
service_beq_iff monitoring b = ground arith
service_beq_iff fan_color b = ground arith
service_beq_iff broadcast b = ground arith
service_beq_iff coordinator b = ground arith

instance abbrev pub service_eq : Eq ServiceType
service_eq = record { beq = service_beq; beq_iff = service_beq_iff }

-- The requests that `impl_multiple_target_request!` makes; all have the same targets.
pub data MultipleRequest : Type 0 where
  health_check_query : MultipleRequest
  prepare_config_update_command : (transaction_id : ℕ) → MultipleRequest
  prepare_shutdown_command : MultipleRequest
  commit_config_update_command : (transaction_id : ℕ) → MultipleRequest
  rollback_config_update_command : (transaction_id : ℕ) → MultipleRequest

abbrev pub targets : MultipleRequest → List ServiceType
targets health_check_query = monitoring ∷ fan_color ∷ broadcast ∷ []
targets (prepare_config_update_command id) = prepare_targets
targets prepare_shutdown_command = monitoring ∷ fan_color ∷ broadcast ∷ []
targets (commit_config_update_command id) = monitoring ∷ fan_color ∷ broadcast ∷ []
targets (rollback_config_update_command id) = monitoring ∷ fan_color ∷ broadcast ∷ []

module _ {F : Type 0} where
  abbrev pub payload : MultipleRequest → RequestPayload F
  payload health_check_query = health_check
  payload (prepare_config_update_command id) = prepare_config_update id
  payload prepare_shutdown_command = prepare_shutdown
  payload (commit_config_update_command id) = commit_config_update_request id
  payload (rollback_config_update_command id) = rollback_config_update_request id

-- What is at the far ends of the channels.
pub record Channels (F : Type 0) : Type 1 where
  pub State : Type 0
  -- A request on a channel, under the configuration of that moment: what its task answers, or `none`
  -- if the channel is closed or the answer is lost.
  pub serve : Config F → ℕ → RequestPayload F → State → Option (Result (Response F)) × State
  -- `send` and `subscribe` of the broadcast channel.
  pub send : Event F → State → Result (Unit {0}) × State
  pub subscribe : State → ℕ × State

module _ {F : Type 0} (T : Channels F) where
  pub record MessageBroker : Type 0 where
    pub service_handlers : Dict ServiceType ℕ
    pub channels : T.State

  abbrev pub with_capacity : T.State → MessageBroker
  with_capacity opened = record { service_handlers = []; channels = opened }

  unfoldable pub register_handler : ServiceType → ℕ → MessageBroker → MessageBroker
  register_handler service handler b = record b {
    service_handlers = insert service handler b.service_handlers;
  }

  unfoldable pub has_handler : ServiceType → MessageBroker → Bool
  has_handler service b = is_some (lookup service b.service_handlers)

  unfoldable pub handler_count : MessageBroker → ℕ
  handler_count b = length b.service_handlers

  unfoldable pub notify : Event F → MessageBroker → Result (Unit {0}) × MessageBroker
  notify event b = let (r, s) = T.send event b.channels in (r, record b { channels = s })

  unfoldable pub subscribe : MessageBroker → ℕ × MessageBroker
  subscribe b = let (receiver, s) = T.subscribe b.channels in (receiver, record b { channels = s })

  abbrev pub ask_channel :
      Option ℕ
      → Config F
      → RequestPayload F
      → MessageBroker
      → Option (Result (Response F)) × MessageBroker
  ask_channel none config p b = (none, b)
  ask_channel (some handler) config p b =
      let (answer, s) = T.serve config handler p b.channels in (answer, record b { channels = s })

  -- The request through the table.
  unfoldable pub ask :
      Config F
      → ServiceType
      → RequestPayload F
      → MessageBroker
      → Option (Result (Response F)) × MessageBroker
  ask config service p b = ask_channel (lookup service b.service_handlers) config p b

  -- The broker as the interface that the coordinator has of the services.
  abbrev pub broker_services : Services F
  broker_services = record {
    State = MessageBroker;
    has_handler = has_handler;
    ask = ask;
    notify = λ event b. (notify event b).1;
  }

  -- `execute` of a request to several services.
  unfoldable pub execute_on :
      Config F → MultipleRequest → MessageBroker → List (ServiceType × Response F) × MessageBroker
  unfolding execute_multiple has_handler ask
  execute_on config request b =
      execute_multiple broker_services config (payload request) (targets request) b
