-- ===== src/Event/Broker/Table.antt =====
-- The table of handlers, against the requests that go through it.
use tt_riingd.Common.{
  ℕ, suc, List, [], ◌∷◌, Option, none, some, Bool, true, false, Result, ok, err, panic, no_handler,
  ◌≡◌, refl, ap, ◌∙◌, sym, lookup, lookup-insert, length-insert, is_some, if◌then◌else◌, ◌==◌, All,
  arith,
}
use tt_riingd.Config.{Config}
use tt_riingd.Event.{
  ServiceType, RequestPayload, Response, with_response, ask_registered, execute_multiple,
}
use tt_riingd.Event.Single.{execute_single, answered}
use tt_riingd.Event.Broker.{
  service_eq, Channels, MessageBroker, register_handler, has_handler, handler_count, ask,
  ask_channel, broker_services, MultipleRequest, targets, payload, execute_on,
}

module _ {F : Type 0} (T : Channels F) where
  -- A request on one channel, and the broker behind it.
  abbrev pub on_channel :
      Config F → ℕ → RequestPayload F → MessageBroker T → Result (Response F) × MessageBroker T
  on_channel config handler p b =
      let (answer, s) = T.serve config handler p b.channels in
      (answered (broker_services T) answer, record b { channels = s })

  -- Registering a handler makes the table longer just when the service had none.
  pub handler_count-register_handler :
      (service : ServiceType) (handler : ℕ) (b : MessageBroker T)
      → handler_count T (register_handler T service handler b)
        ≡ (if has_handler T service b then handler_count T b else suc (handler_count T b))
  unfolding register_handler handler_count has_handler
  handler_count-register_handler service handler b =
      length-insert service handler b.service_handlers

  -- What the caller and the tasks see of a request.
  abbrev pub seen : Result (Response F) × MessageBroker T → Result (Response F) × T.State
  seen (r, b) = (r, b.channels)

  -- A request by the channel that the table has for it.
  abbrev routed : Option ℕ → Config F → RequestPayload F → T.State → Result (Response F) × T.State
  routed none config p s = (err no_handler, s)
  routed (some handler) config p s =
      let (answer, s') = T.serve config handler p s in (answered (broker_services T) answer, s')

  asked :
      (o : Option ℕ) (config : Config F) (p : RequestPayload F) (b : MessageBroker T)
      → seen (
          if is_some o
          then (let (answer, b') = ask_channel T o config p b in
              (answered (broker_services T) answer, b'))
          else (err no_handler, b))
        ≡ routed o config p b.channels
  asked none config p b = refl
  asked (some handler) config p b = refl

  seen-execute_single :
      (config : Config F) (service : ServiceType) (p : RequestPayload F) (b : MessageBroker T)
      → seen (execute_single (broker_services T) config service p b)
        ≡ routed (lookup service b.service_handlers) config p b.channels
  unfolding execute_single ask has_handler
  seen-execute_single config service p b =
      ground (arith, asked (lookup service b.service_handlers) config p b)

  routed-if :
      (t : Bool) (handler : ℕ) (o : Option ℕ) (config : Config F) (p : RequestPayload F)
      (s : T.State)
      → routed (if t then some handler else o) config p s
        ≡ (if t then routed (some handler) config p s else routed o config p s)
  routed-if true handler o config p s = refl
  routed-if false handler o config p s = refl

  -- Once a handler is registered, a request to its service goes to its channel and to no other, also
  -- when the service had another one before; the requests to the other services go where they went.
  pub execute_single-register_handler :
      (config : Config F) (service other : ServiceType) (handler : ℕ) (p : RequestPayload F)
      (b : MessageBroker T)
      → seen
          (execute_single (broker_services T) config other p (register_handler T service handler b))
        ≡ (if service == other
            then seen (on_channel config handler p b)
            else seen (execute_single (broker_services T) config other p b))
  execute_single-register_handler config service other handler p b =
      seen-execute_single config other p (register_handler T service handler b)
      ∙ unfold register_handler in
        (ap (λ o. routed o config p b.channels)
          (lookup-insert service other handler b.service_handlers))
        ∙ routed-if (service == other) handler (lookup other b.service_handlers) config p b.channels
        ∙ ap (λ r. if service == other then seen (on_channel config handler p b) else r)
            (sym (seen-execute_single config other p b))

  -- Asking changes no entry of the table.
  ask_channel-service_handlers :
      (o : Option ℕ) (config : Config F) (p : RequestPayload F) (b : MessageBroker T)
      → (ask_channel T o config p b).1.service_handlers ≡ b.service_handlers
  ask_channel-service_handlers none config p b = refl
  ask_channel-service_handlers (some handler) config p b = refl

  ask_registered-service_handlers :
      (t : Bool) (config : Config F) (service : ServiceType) (p : RequestPayload F)
      (b : MessageBroker T)
      → (ask_registered (broker_services T) t config service p b).1.service_handlers
        ≡ b.service_handlers
  unfolding ask
  ask_registered-service_handlers true config service p b =
      ask_channel-service_handlers (lookup service b.service_handlers) config p b
  ask_registered-service_handlers false config service p b = refl

  abbrev Registered : MessageBroker T → ServiceType × Response F → Type 0
  Registered b r = has_handler T r.0 b ≡ true

  with_response-Registered :
      (b : MessageBroker T) (answer : Option (Result (Response F))) (service : ServiceType)
      (responses : List (ServiceType × Response F))
      → has_handler T service b ≡ true
      → All (Registered b) responses
      → All (Registered b) (with_response (broker_services T) answer service responses)
  with_response-Registered b none service responses e h = h
  with_response-Registered b (some (ok r)) service responses e h = (e, h)
  with_response-Registered b (some (err x)) service responses e h = h
  with_response-Registered b (some panic) service responses e h = h

  asked-Registered :
      (t : Bool) (config : Config F) (service : ServiceType) (p : RequestPayload F)
      (b first : MessageBroker T) (responses : List (ServiceType × Response F))
      → has_handler T service first ≡ t
      → All (Registered first) responses
      → All (Registered first) (
          with_response
            (broker_services T)
            (ask_registered (broker_services T) t config service p b).0
            service
            responses)
  asked-Registered true config service p b first responses e h =
      with_response-Registered first (ask T config service p b).0 service responses e h
  asked-Registered false config service p b first responses e h = h

  multiple-Registered :
      (config : Config F) (p : RequestPayload F) (services : List ServiceType)
      (b first : MessageBroker T)
      → b.service_handlers ≡ first.service_handlers
      → All (Registered first) (execute_multiple (broker_services T) config p services b).0
  unfolding execute_multiple has_handler
  multiple-Registered config p [] b first e = tt
  multiple-Registered config p (service ∷ services) b first e =
      let t = has_handler T service b in
      let b' = (ask_registered (broker_services T) t config service p b).1 in
      asked-Registered t config service p b first
        (execute_multiple (broker_services T) config p services b').0
        (ap (λ h. is_some (lookup service h)) (sym e))
        (multiple-Registered config p services b' first
          (ask_registered-service_handlers t config service p b ∙ e))

  -- A response to a request to several services comes from a service with a handler.
  pub execute_on-Registered :
      (config : Config F) (request : MultipleRequest) (b : MessageBroker T)
      → All (λ r. has_handler T r.0 b ≡ true) (execute_on T config request b).0
  unfolding execute_on
  execute_on-Registered config request b =
      multiple-Registered config (payload request) (targets request) b b refl
