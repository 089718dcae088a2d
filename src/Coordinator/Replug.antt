-- ===== src/Coordinator/Replug.antt =====
-- A device that is plugged in again and again, from the events of the udev watcher to the workers.
use tt_riingd.Common.{
  ℕ, zero, suc, ◌≡◌, refl, ap, ◌∙◌, List, [], ◌∷◌, String, Option, none, some, true, Result, ok,
  Dict, lookup, insert, string_eq, nat_eq,
}
use tt_riingd.Hid.{HardwareFingerprint, fingerprint_eq}
use tt_riingd.Config.{Config, ControllerCfg}
use tt_riingd.Quad
use tt_riingd.Quad.{Controller}
use tt_riingd.Registry.{HidApi, build_one_controller, create_fallback_config}
use tt_riingd.Registry.Cache.{build-cached, unknown_learned, lookup-insert_self}
use tt_riingd.Event.{Event, Services, device_connected, device_disconnected}
use tt_riingd.Tasks.{TaskEnd}
use tt_riingd.Worker.{new_worker, led_count, call, drain, serve, handle}
use tt_riingd.Worker.Pool.{request-found}
use tt_riingd.Manager
use tt_riingd.Manager.{
  ControllerManager, quad_controller, attach, manager_led_count, count_leds, leds_of,
}
use tt_riingd.Manager.Setup
use tt_riingd.Manager.Setup.{attach_built}
use tt_riingd.Manager.Hotplug.{
  attached_fingerprint, attached_id, attached_worker, attach-device_disconnected,
}
use tt_riingd.Coordinator.MainLoop.{
  SystemCoordinator, delivered, handle_event, handle_device_connected, handle_device_disconnected,
  run_main_loop,
}

abbrev pub shown : ℕ → ℕ → Option String → HardwareFingerprint
shown vid pid sn = record { vendor_id = vid; product_id = pid; serial = sn }

module _ (api : HidApi) (vid pid : ℕ) (sn : Option String) where
  -- The controller `c` of the device can be used: its id has a worker that waits for commands, and it
  -- answers the question for its LEDs.
  pub record IsPluggedIn (c : Controller api.device)
      (m : ControllerManager (quad_controller api.device)) : Type 0 where
    pub known : lookup (shown vid pid sn) m.fingerprint2controller_id ≡ some c.name
    pub worker : ℕ
    pub assigned : lookup c.name m.controller_id2worker_id ≡ some (some worker)
    pub waits :
        lookup worker m.worker_manager.workers ≡ some (new_worker (quad_controller api.device) c)
    pub answers : (manager_led_count (quad_controller api.device) c.name m).0 ≡ ok Quad.led_count

  attach-IsPluggedIn :
      (c : Controller api.device) (m : ControllerManager (quad_controller api.device))
      → IsPluggedIn c (attach (quad_controller api.device) (shown vid pid sn) c m)
  unfolding manager_led_count call drain serve handle
  attach-IsPluggedIn c m =
      let C = quad_controller api.device in
      let f = shown vid pid sn in
      let m' = attach C f c m in
      let next = m.worker_manager.next_worker_id in
      record {
        known = attached_fingerprint f c m;
        worker = next;
        assigned = attached_id f c m;
        waits = attached_worker f c m;
        answers =
            ap (λ o. (count_leds C o m').0) (attached_id f c m)
            ∙ ap (λ r. leds_of C r.0)
                (request-found next led_count m'.worker_manager (new_worker C c)
                  (attached_worker f c m));
      }

-- The events of a device that comes, and `n` times goes and comes back.
abbrev pub hotplugged : {F : Type 0} → ℕ → ℕ → Option String → ℕ → List (Event F)
hotplugged vid pid sn zero = device_connected vid pid sn ∷ []
hotplugged vid pid sn (suc n) =
    device_connected vid pid sn ∷ device_disconnected vid pid sn ∷ hotplugged vid pid sn n

module _ {F : Type 0} (api : HidApi) (from_str : String → Result (Config F)) (S : Services F)
    (content : Result String) (ends : ℕ → TaskEnd) (vid pid : ℕ) (sn : Option String) where
  module _ (cfg : ControllerCfg) (c : Controller api.device)
      (builds : build_one_controller api cfg ≡ ok c) where
    -- The daemon behind the arrival.
    abbrev arrived : SystemCoordinator api from_str S → SystemCoordinator api from_str S
    arrived s = record s {
      controllers = attach (quad_controller api.device) (shown vid pid sn) c s.controllers;
    }

    abbrev departed : SystemCoordinator api from_str S → SystemCoordinator api from_str S
    departed s = record s {
      controllers =
          (Manager.device_disconnected (quad_controller api.device) (shown vid pid sn)
            s.controllers).1;
    }

    plugged-eq :
        (s : SystemCoordinator api from_str S)
        → s.coordinator.initialized ≡ true
        → lookup (shown vid pid sn) s.registry ≡ some cfg
        → handle_device_connected api from_str S vid pid sn s ≡ (ok tt, arrived s)
    unfolding handle_device_connected Manager.Setup.device_connected
    plugged-eq s live cached =
        let f = shown vid pid sn in rw (live, build-cached api s.registry f cfg cached, builds) refl

    unplugged-eq :
        (s : SystemCoordinator api from_str S)
        → s.coordinator.initialized ≡ true
        → handle_device_disconnected api from_str S vid pid sn (arrived s)
          ≡ (ok tt, departed (arrived s))
    unfolding handle_device_disconnected
    unplugged-eq s live =
        let (stopped, none_left, gone) =
          attach-device_disconnected {C = quad_controller api.device} (shown vid pid sn) c
            s.controllers in
        rw (live, stopped) refl

    -- Once the daemon is initialized, a device whose fingerprint the registry's cache has, with an entry
    -- that can be built, may go and come back any number of times: the main loop goes on, the cache
    -- stays as it is, and in the end the controller has a worker that waits for commands and answers.
    pub hotplugged-IsPluggedIn :
        (n : ℕ) (s : SystemCoordinator api from_str S)
        → s.coordinator.initialized ≡ true
        → lookup (shown vid pid sn) s.registry ≡ some cfg
        → let (r, s') =
            run_main_loop api from_str S
              (delivered api from_str S content ends (hotplugged vid pid sn n))
              s in
          (r ≡ none)
          × (s'.registry ≡ s.registry)
          × (s'.coordinator ≡ s.coordinator)
          × IsPluggedIn api vid pid sn c s'.controllers
    unfolding run_main_loop handle_event
    hotplugged-IsPluggedIn zero s live cached =
        rw (plugged-eq s live cached)
          (refl, refl, refl, attach-IsPluggedIn api vid pid sn c s.controllers)
    hotplugged-IsPluggedIn (suc n) s live cached =
        rw (plugged-eq s live cached, unplugged-eq s live)
          (hotplugged-IsPluggedIn n (departed (arrived s)) live cached)

  module _ (c : Controller api.device)
      (builds : build_one_controller api (create_fallback_config (shown vid pid sn)) ≡ ok c) where
    -- The registry with the fallback configuration of the device.
    abbrev pub learned :
        Dict HardwareFingerprint ControllerCfg → Dict HardwareFingerprint ControllerCfg
    learned cache = insert (shown vid pid sn) (create_fallback_config (shown vid pid sn)) cache

    abbrev met : SystemCoordinator api from_str S → SystemCoordinator api from_str S
    met s = record s { registry = learned s.registry }

    first_plugged-eq :
        (s : SystemCoordinator api from_str S)
        → s.coordinator.initialized ≡ true
        → lookup (shown vid pid sn) s.registry ≡ none
        → handle_device_connected api from_str S vid pid sn s
          ≡ (ok tt, arrived (create_fallback_config (shown vid pid sn)) c builds (met s))
    unfolding handle_device_connected Manager.Setup.device_connected
    first_plugged-eq s live unknown =
        let (built, again, others) =
          unknown_learned api s.registry (shown vid pid sn) c unknown builds in
        rw (live, built) refl

    -- Once the daemon is initialized, a device that the registry's cache does not have, and that opens
    -- under its fallback configuration, comes, and any number of times goes and comes back: the main
    -- loop goes on, the cache has learned that configuration and is else as it was, and in the end the
    -- controller has a worker that waits for commands and answers.
    pub unknown-IsPluggedIn :
        (n : ℕ) (s : SystemCoordinator api from_str S)
        → s.coordinator.initialized ≡ true
        → lookup (shown vid pid sn) s.registry ≡ none
        → let (r, s') =
            run_main_loop api from_str S
              (delivered api from_str S content ends (hotplugged vid pid sn n))
              s in
          (r ≡ none)
          × (s'.registry ≡ learned s.registry)
          × (s'.coordinator ≡ s.coordinator)
          × IsPluggedIn api vid pid sn c s'.controllers
    unfolding run_main_loop handle_event
    unknown-IsPluggedIn zero s live unknown =
        rw (first_plugged-eq s live unknown)
          (refl, refl, refl, attach-IsPluggedIn api vid pid sn c s.controllers)
    unknown-IsPluggedIn (suc n) s live unknown =
        let cfg = create_fallback_config (shown vid pid sn) in
        rw (first_plugged-eq s live unknown, unplugged-eq cfg c builds (met s) live)
          (hotplugged-IsPluggedIn cfg c builds n
            (departed cfg c builds (arrived cfg c builds (met s))) live
            (lookup-insert_self api (shown vid pid sn) cfg s.registry))
