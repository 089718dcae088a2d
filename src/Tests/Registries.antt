-- ===== src/Tests/Registries.antt =====
-- A simulated HID API, the merge of the hardware into a configuration, and the cache.
use tt_riingd.Common.{ℕ, ◌≡◌, refl, [], ◌∷◌, none, true, ok, err, io_error, if◌then◌else◌, eqb}
use tt_riingd.Hid.{fingerprint_eq}
use tt_riingd.Quad.{Controller}
use tt_riingd.Config.{Config, ControllerCfg, riing_quad, default_config}
use tt_riingd.Registry.{
  HidApi, controller_exists, scan_hardware, merge_with_config, build_controllers,
  build_one_controller, build_controller_from_fingerprint, create_fallback_config,
  merge_controllers, create_one, detect,
}
use tt_riingd.Registry.Merge.{added, merge_with_config-keeps}
use tt_riingd.Registry.Cache.{reconnect_restores}
use tt_riingd.Tests.Device.{sim, fresh, fingerprint}

-- Two controllers and a keyboard are attached; the devices open by their product.
abbrev pub api : HidApi
api = record {
  available = true;
  device = sim;
  device_list = (0x264a, 0x232B) ∷ (0x1234, 1) ∷ (0x264a, 0x232C) ∷ [];
  open_device = λ vid pid.
      if eqb pid 0x232B
      then ok (fresh 0x232B)
      else (if eqb pid 0x232C then ok (fresh 0x232C) else err (io_error 2));
}

abbrev pub main_controller : ControllerCfg
main_controller =
    riing_quad "main" (record { vid = 0x264a; pid = 0x232B; serial = none })
      (record { idx = 1; name = "front" } ∷ record { idx = 2; name = "rear" } ∷ [])

abbrev pub file : Config ℕ
file = record default_config { controllers = main_controller ∷ [] }

merged_keeps :
    (merge_with_config api file).controllers
    ≡ main_controller ∷ added (main_controller ∷ []) (scan_hardware api)
merged_keeps = merge_with_config-keeps api file

-- The second controller is added, the keyboard is not.
one_added :
    (merge_with_config api file).controllers
    ≡ main_controller ∷ create_fallback_config (fingerprint 0x232C) ∷ []
unfolding merge_with_config merge_controllers controller_exists detect
one_added = refl

reconnect_restores_example :
    let cache = (build_controllers api (main_controller ∷ []) []).1 in
    build_controller_from_fingerprint api (fingerprint 0x232B) cache
    ≡ (build_one_controller api main_controller, cache)
reconnect_restores_example =
    reconnect_restores api (main_controller ∷ []) (fingerprint 0x232B) main_controller
      (unfold build_one_controller create_one in refl)

abbrev pub learned_controller : Controller sim
learned_controller = record { name = "fallback_9802:9004"; dev = fresh 0x232C; fans = [] }
