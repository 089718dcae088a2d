-- ===== src/Colors/Reload.antt =====
-- What a hot reload makes of the monitoring service and of the fan colour service together.
use tt_riingd.Common.{
  ℕ, zero, suc, ◌≡◌, ◌≢◌, refl, ap, List, [], ◌∷◌, All, ◌⊎◌, inl, inr, String, some, Bool, true,
  false, Result, ok, err, prepare_failed,
}
use tt_riingd.Floats.{Floats}
use tt_riingd.Config.{Config}
use tt_riingd.Config.Load.{load_config}
use tt_riingd.Registry.{HidApi}
use tt_riingd.Event.{
  ServiceType, Response, temperature, sensor_data, color, health, success, error, broadcast,
  RequestPayload, prepare_config_update, Services, execute_multiple, prepare_targets,
  ask_registered,
}
use tt_riingd.Monitoring
use tt_riingd.Monitoring.{MappingCache, MonitoringCache, mapping_cache_of, with_monitoring}
use tt_riingd.Effects.{EffectStore, build_effect_store}
use tt_riingd.Colors
use tt_riingd.Colors.{commit_runners, FanColorServiceCache, with_fan_color, rebuild_effects}
use tt_riingd.Coordinator.{Coordinator, failures_of, conclude, handle_hot_reload}
use tt_riingd.Coordinator.Reload.{reloaded}

-- A service that did not answer that it prepared.
pub data Refuses (F : Type 0) : List (ServiceType × Response F) → Type 0 where
  here :
      {service : ServiceType} {response : Response F} {responses : List (ServiceType × Response F)}
      → response ≢ success
      → Refuses F ((service, response) ∷ responses)
  there :
      {answer : ServiceType × Response F} {responses : List (ServiceType × Response F)}
      → Refuses F responses
      → Refuses F (answer ∷ responses)

-- All services that answered prepared.
abbrev pub HavePrepared : {F : Type 0} → List (ServiceType × Response F) → Type 0
HavePrepared responses = All (λ e. e.1 ≡ success) responses

-- What the count of the failures says, in either case.
abbrev Counted : {F : Type 0} → ℕ → List (ServiceType × Response F) → Type 0
Counted {F} zero responses = HavePrepared responses
Counted {F} (suc n) responses = Refuses F responses

also_prepared :
    {F : Type 0} (n : ℕ) (service : ServiceType) (responses : List (ServiceType × Response F))
    → Counted n responses
    → Counted n ((service, success) ∷ responses)
also_prepared zero service responses h = (refl, h)
also_prepared (suc n) service responses h = there h

counted :
    {F : Type 0} (responses : List (ServiceType × Response F))
    → Counted (failures_of responses) responses
counted [] = tt
counted ((service, success) ∷ responses) =
    also_prepared (failures_of responses) service responses (counted responses)
counted ((service, temperature id value) ∷ responses) = here (λ e. absurd (cc e))
counted ((service, sensor_data sensors) ∷ responses) = here (λ e. absurd (cc e))
counted ((service, color id name) ∷ responses) = here (λ e. absurd (cc e))
counted ((service, health other status) ∷ responses) = here (λ e. absurd (cc e))
counted ((service, error message) ∷ responses) = here (λ e. absurd (cc e))

module _ (R : Floats) (others : Services R.F) where
  abbrev pub AllServices : Services R.F
  AllServices = with_monitoring (with_fan_color R others)

  asked_broadcast :
      (b : Bool) (config : Config R.F) (payload : RequestPayload R.F) (s : AllServices.State)
      → let s' = (ask_registered AllServices b config broadcast payload s).1 in
        (s'.0 ≡ s.0) × (s'.1.0 ≡ s.1.0)
  asked_broadcast true config payload s = (refl, refl)
  asked_broadcast false config payload s = (refl, refl)

  -- The first phase stages both: the mappings and the effects of the new configuration.
  prepared :
      (config : Config R.F) (id : ℕ) (s : AllServices.State)
      → let s' =
          (execute_multiple AllServices config (prepare_config_update id) prepare_targets s).1 in
        (s'.0.mapping_cache ≡ s.0.mapping_cache)
        × (s'.0.new_mapping ≡ mapping_cache_of config)
        × (s'.1.0.runners ≡ s.1.0.runners)
        × (s'.1.0.new_runners ≡ some (build_effect_store R config.effects config.effect_mappings))
  unfolding execute_multiple Monitoring.handle_event Colors.handle_event
  prepared config id s =
      let payload = prepare_config_update id in
      let s' : AllServices.State = (
        record s.0 { new_mapping = mapping_cache_of config },
        (rebuild_effects R config s.1.0, s.1.1),
      ) in
      let (mon, fan) = asked_broadcast (others.has_handler broadcast s.1.1) config payload s' in
      (
        ap (λ c. c.mapping_cache) mon,
        ap (λ c. c.new_mapping) mon,
        ap (λ c. c.runners) fan,
        ap (λ c. c.new_runners) fan,
      )

  -- What both services work with.
  abbrev pub WorksWith : AllServices.State → MappingCache R.F → EffectStore R → Type 0
  WorksWith s mapping store = (s.0.mapping_cache ≡ mapping) × (s.1.0.runners ≡ store)

  module _ (api : HidApi) (from_str : String → Result (Config R.F)) where
    concluded :
        (n id : ℕ) (c : Coordinator api from_str AllServices) (old new : MappingCache R.F)
        (old_store new_store : EffectStore R)
        → WorksWith c.services old old_store
        → c.services.0.new_mapping ≡ new
        → c.services.1.0.new_runners ≡ some new_store
        → (responses : List (ServiceType × Response R.F)) → Counted n responses
        → let (r, c') = conclude api from_str AllServices n id c in
          ((r ≡ ok tt) × HavePrepared responses × WorksWith c'.services new new_store)
          ⊎ ((r ≡ err prepare_failed) × Refuses R.F responses × WorksWith c'.services old old_store)
    unfolding Monitoring.handle_notify Colors.handle_notify
    concluded zero id c old new old_store new_store (m, r) staged runners responses h =
        inl (refl, h, (staged, ap (λ o. (commit_runners R o c.services.1.0).runners) runners))
    concluded (suc n) id c old new old_store new_store (m, r) staged runners responses h =
        inr (refl, h, (m, r))

    -- What the services answer to the first phase of a reload.
    abbrev pub answers_to :
        Config R.F → Coordinator api from_str AllServices → List (ServiceType × Response R.F)
    answers_to config c =
        (execute_multiple AllServices config (prepare_config_update c.transaction_counter)
          prepare_targets c.services).0

    -- A hot reload of a file that loads either commits, as each service that answered has prepared, and
    -- then the monitoring service works with the mappings and curves of that file and the fan colour
    -- service with its effects, or it fails, as a service answered otherwise, and then both keep what
    -- they had.
    pub hot_reload_both :
        (content : Result String) (c : Coordinator api from_str AllServices) (config : Config R.F)
        → c.initialized ≡ true
        → load_config api from_str content ≡ ok config
        → let (r, c') = handle_hot_reload api from_str AllServices content c in
          ((r ≡ ok tt)
            × HavePrepared (answers_to config c)
            × WorksWith c'.services
                (mapping_cache_of config)
                (build_effect_store R config.effects config.effect_mappings))
          ⊎ ((r ≡ err prepare_failed)
              × Refuses R.F (answers_to config c)
              × WorksWith c'.services c.services.0.mapping_cache c.services.1.0.runners)
    hot_reload_both content c config live loaded =
        let (kept, staged, store, runners) = prepared config c.transaction_counter c.services in
        rw (reloaded api from_str (with_fan_color R others) content c (ok config) live loaded) (
          concluded _ c.transaction_counter _ c.services.0.mapping_cache (mapping_cache_of config)
            c.services.1.0.runners (build_effect_store R config.effects config.effect_mappings)
            (kept, store) staged runners (answers_to config c) (counted (answers_to config c)))
