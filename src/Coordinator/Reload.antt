-- ===== src/Coordinator/Reload.antt =====
-- What a hot reload makes of the configuration and of the mappings of the monitoring service.
use tt_riingd.Common.{
  Dict, ℕ, zero, suc, ◌≡◌, refl, ap, ◌∙◌, ◌⊎◌, inl, inr, List, [], String, Option, none, some, Bool,
  true, false, Result, Error, ok, err, panic, arith, prepare_failed,
}
use tt_riingd.Config.{Config}
use tt_riingd.Config.Load.{load_config, reload, store_loaded}
use tt_riingd.Registry.{HidApi}
use tt_riingd.Event.{
  ServiceType, fan_color, broadcast, RequestPayload, Response, prepare_config_update,
  commit_config_update, Services, execute_multiple, prepare_targets, ask_registered, with_response,
}
use tt_riingd.Monitoring.{
  MappingCache, MonitoringCache, mapping_cache_of, handle_event, handle_notify, with_monitoring,
  ask_one,
}
use tt_riingd.Coordinator.{
  Coordinator, failures_of, conclude, two_phases, reload_initialized, handle_hot_reload,
}

-- An answer that is an error, or was lost.
abbrev pub IsLost : {F : Type 0} → Option (Result (Response F)) → Type 0
IsLost (some (ok response)) = ⊥
IsLost _ = Unit {0}

module _ {F : Type 0} (others : Services F) where
  asked_fan_color :
      (b : Bool) (config : Config F) (payload : RequestPayload F)
      (s : MonitoringCache F × others.State)
      → (ask_registered (with_monitoring others) b config fan_color payload s).1.0 ≡ s.0
  asked_fan_color true config payload s = refl
  asked_fan_color false config payload s = refl

  asked_broadcast :
      (b : Bool) (config : Config F) (payload : RequestPayload F)
      (s : MonitoringCache F × others.State)
      → (ask_registered (with_monitoring others) b config broadcast payload s).1.0 ≡ s.0
  asked_broadcast true config payload s = refl
  asked_broadcast false config payload s = refl

  -- The first phase stages the mappings of the new configuration beside those in use.
  prepared :
      (config : Config F) (id : ℕ) (s : MonitoringCache F × others.State)
      → (execute_multiple
          (with_monitoring others)
          config
          (prepare_config_update id)
          prepare_targets
          s).1.0
        ≡ record s.0 { new_mapping = mapping_cache_of config }
  unfolding execute_multiple handle_event
  prepared config id s =
      let S = with_monitoring others in
      let payload = prepare_config_update id in
      let s1 : MonitoringCache F × others.State =
        (record s.0 { new_mapping = mapping_cache_of config }, s.1) in
      let b1 = others.has_handler fan_color s1.1 in
      let s2 = (ask_registered S b1 config fan_color payload s1).1 in
      asked_broadcast (others.has_handler broadcast s2.1) config payload s2
      ∙ asked_fan_color b1 config payload s1

  lost_response :
      (o : Option (Result (Response F))) (service : ServiceType)
      (responses : List (ServiceType × Response F))
      → IsLost o
      → with_response (with_monitoring others) o service responses ≡ responses
  lost_response none service responses h = refl
  lost_response (some (ok r)) service responses h = absurd h
  lost_response (some (err e)) service responses h = refl
  lost_response (some panic) service responses h = refl

  ask_registered-IsLost :
      (b : Bool) (config : Config F) (service : ServiceType) (payload : RequestPayload F)
      (s : MonitoringCache F × others.State)
      → IsLost (ask_one others config service payload s).0
      → IsLost (ask_registered (with_monitoring others) b config service payload s).0
  ask_registered-IsLost true config service payload s h = h
  ask_registered-IsLost false config service payload s h = tt

  all_lost :
      (config : Config F) (id : ℕ) (s : MonitoringCache F × others.State)
      → ((service : ServiceType) (rest : others.State)
          → IsLost (others.ask config service (prepare_config_update id) rest).0)
      → failures_of
          (execute_multiple
            (with_monitoring others)
            config
            (prepare_config_update id)
            prepare_targets
            s).0
        ≡ 0
  unfolding execute_multiple handle_event
  all_lost config id s h =
      let S = with_monitoring others in
      let payload = prepare_config_update id in
      let s1 : MonitoringCache F × others.State =
        (record s.0 { new_mapping = mapping_cache_of config }, s.1) in
      let b1 = others.has_handler fan_color s1.1 in
      let (o1, s2) = ask_registered S b1 config fan_color payload s1 in
      let b2 = others.has_handler broadcast s2.1 in
      let o2 = (ask_registered S b2 config broadcast payload s2).0 in
      ap failures_of (
        lost_response o1 fan_color (with_response S o2 broadcast [])
          (ask_registered-IsLost b1 config fan_color payload s1 (h fan_color s1.1))
        ∙ lost_response o2 broadcast []
            (ask_registered-IsLost b2 config broadcast payload s2 (h broadcast s2.1)))

module _ {F : Type 0} (api : HidApi) (from_str : String → Result (Config F))
    (others : Services F) where
  concluded :
      (n id : ℕ) (c : Coordinator api from_str (with_monitoring others)) (old new : MappingCache F)
      (kept : Dict String F)
      → c.services.0 ≡ record { sensor_data = kept; mapping_cache = old; new_mapping = new }
      → let (r, c') = conclude api from_str (with_monitoring others) n id c in
        (c'.config ≡ c.config)
        × (((r ≡ ok tt) × (c'.services.0.mapping_cache ≡ new))
            ⊎ ((r ≡ err prepare_failed) × (c'.services.0.mapping_cache ≡ old)))
  unfolding handle_notify
  concluded zero id c old new kept h = (refl, inl (refl, ap (λ s. s.new_mapping) h))
  concluded (suc n) id c old new kept h = (refl, inr (refl, ap (λ s. s.mapping_cache) h))

  commits :
      (n id : ℕ) (c : Coordinator api from_str (with_monitoring others))
      → n ≡ 0
      → conclude api from_str (with_monitoring others) n id c ≡ (
        ok tt,
        record c {
          services = (with_monitoring others).notify (commit_config_update id) c.services;
        },
      )
  commits zero id c h = refl
  commits (suc n) id c h = absurd (omega arith)

  pub reloaded :
      (content : Result String) (c : Coordinator api from_str (with_monitoring others))
      (r : Result (Config F))
      → c.initialized ≡ true
      → load_config api from_str content ≡ r
      → handle_hot_reload api from_str (with_monitoring others) content c
        ≡ two_phases api from_str
            (with_monitoring others)
            (store_loaded r c.config).0
            (record c { config = (store_loaded r c.config).1 })
  unfolding handle_hot_reload reload
  reloaded content c r live loaded =
      let S = with_monitoring others in
      ap (λ b. reload_initialized api from_str S b content c) live
      ∙ ap
          (λ l.
            two_phases api from_str S (store_loaded l c.config).0
              (record c { config = (store_loaded l c.config).1 }))
          loaded

  -- A hot reload of a file that loads either commits, and then the monitoring service works with the
  -- mappings and curves of that file, or fails, and then it keeps those that it had. In both cases the
  -- configuration is already the new one: it is not rolled back.
  pub hot_reload_atomic :
      (content : Result String) (c : Coordinator api from_str (with_monitoring others))
      (config : Config F)
      → c.initialized ≡ true
      → load_config api from_str content ≡ ok config
      → let (r, c') = handle_hot_reload api from_str (with_monitoring others) content c in
        (c'.config ≡ config)
        × (((r ≡ ok tt) × (c'.services.0.mapping_cache ≡ mapping_cache_of config))
            ⊎ ((r ≡ err prepare_failed)
                × (c'.services.0.mapping_cache ≡ c.services.0.mapping_cache)))
  hot_reload_atomic content c config live loaded = rw (reloaded content c (ok config) live loaded) (
      concluded _ c.transaction_counter _ c.services.0.mapping_cache (mapping_cache_of config) _
        (prepared others config c.transaction_counter c.services))

  -- A hot reload of a file that does not load fails with the error of the load and changes nothing.
  pub hot_reload_unloadable :
      (content : Result String) (c : Coordinator api from_str (with_monitoring others)) {e : Error}
      → c.initialized ≡ true
      → load_config api from_str content ≡ err e
      → handle_hot_reload api from_str (with_monitoring others) content c ≡ (err e, c)
  hot_reload_unloadable content c {e} live failed = reloaded content c (err e) live failed

  -- A hot reload commits even if each other service failed to prepare, with an error or by the end of
  -- its task: such answers are not counted. It succeeds, all services are notified of the commit behind
  -- the first phase, and the monitoring service works with the mappings and curves of the file.
  pub hot_reload_ignores_errors :
      (content : Result String) (c : Coordinator api from_str (with_monitoring others))
      (config : Config F)
      → c.initialized ≡ true
      → load_config api from_str content ≡ ok config
      → ((service : ServiceType) (rest : others.State)
          → IsLost (others.ask config service (prepare_config_update c.transaction_counter) rest).0)
      → let S = with_monitoring others in
        let id = c.transaction_counter in
        let asked =
          (execute_multiple S config (prepare_config_update id) prepare_targets c.services).1 in
        let (r, c') = handle_hot_reload api from_str S content c in
        (r ≡ ok tt)
        × (c'.services ≡ S.notify (commit_config_update id) asked)
        × (c'.services.0.mapping_cache ≡ mapping_cache_of config)
  unfolding handle_notify
  hot_reload_ignores_errors content c config live loaded lost =
      rw
        (
          reloaded content c (ok config) live loaded,
          commits _ c.transaction_counter _
              (all_lost others config c.transaction_counter c.services lost),
        )
        (
          refl,
          refl,
          ap (λ m. m.new_mapping) (prepared others config c.transaction_counter c.services),
        )
