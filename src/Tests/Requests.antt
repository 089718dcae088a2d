-- ===== src/Tests/Requests.antt =====
-- Events that reach the main loop: a request to reload over D-Bus, and a device that comes and goes. Also
-- the services that only have a timer.
use tt_riingd.Common.{
  ℕ, ◌≡◌, refl, ap, List, [], ◌∷◌, none, some, ok, err, panic, io_error, lookup, insert, nat_eq,
  string_eq, ◌>>=◌,
}
use tt_riingd.Config.{Config, default_config}
use tt_riingd.Config.Changes.{analyze_changes}
use tt_riingd.Config.Load.{analyze_config_changes}
use tt_riingd.Event.{temperature_changed}
use tt_riingd.Hid.{fingerprint_eq}
use tt_riingd.Interface.{
  applied, answer_change, reload_config, ticked, cancelled, broadcast_loop, run_broadcast_service,
  broadcast_current_state, dbus_loop, run_dbus_service,
}
use tt_riingd.Interface.Applied.{Daemon, IsHonoured, main_loop, reload_config-IsHonoured}
use tt_riingd.Colors.Reload.{AllServices}
use tt_riingd.Coordinator.MainLoop.{delivered, run_main_loop}
use tt_riingd.Coordinator.Replug.{shown, IsPluggedIn, hotplugged, unknown-IsPluggedIn}
use tt_riingd.Manager.{ControllerManager, quad_controller, attach}
use tt_riingd.Worker.{new_manager, new_worker, start_worker}
use tt_riingd.Quad.{Controller}
use tt_riingd.Registry.{
  build_one_controller, create_one, merge_with_config, detect, controller_exists, fallback_id,
}
use tt_riingd.Tasks.{completed}
use tt_riingd.Tests.Configs.{parsed, loaded, file_loads}
use tt_riingd.Tests.Curves.{fixed}
use tt_riingd.Tests.Frames.{nobody, started}
use tt_riingd.Tests.Device.{sim, fresh, fingerprint}
use tt_riingd.Tests.Managers.{first_manager}
use tt_riingd.Tests.Watching.{to_str, lossy, device}
use tt_riingd.Udev.{
  add, remove, Device, usb_ids, parse_id, trim_start, from_str_radix, from_digits, hex_value,
}
use tt_riingd.Udev.Ids.{hex_id}
use tt_riingd.Udev.Replug.{replugged-IsPluggedIn}
use tt_riingd.Udev.Service.{Watch, Turn, yielded, received, fresh_watch, run_udev_watcher_service}
use tt_riingd.Registry.{create_fallback_config, decimal, is_supported_hardware}
use tt_riingd.Tests.Registries.{api, main_controller, learned_controller}
use tt_riingd.Tests.Starts.{one_spawned}

-- The hardware of the file, with other curves.
abbrev edited : Config ℕ
edited = record loaded { curves = [] }

abbrev daemon : Daemon fixed nobody api parsed
daemon = record {
  coordinator = record started { config = edited };
  controllers = first_manager;
  registry = [];
  task_manager = one_spawned;
}

hot_answer : (reload_config api parsed (ok "") edited).0 ≡ ok applied
unfolding reload_config analyze_config_changes analyze_changes merge_with_config detect
    controller_exists fallback_id
hot_answer =
    ap (λ r. (answer_change {F = ℕ} (r >>= λ config. ok (analyze_changes edited config))).0)
      file_loads

reload_config-IsHonoured_example :
    let (answer, events) = reload_config api parsed (ok "") edited in
    IsHonoured fixed nobody api parsed (ok "") daemon answer (
      main_loop fixed nobody api parsed
        (delivered api parsed (AllServices fixed nobody) (ok "") (λ h. completed) events)
        daemon)
reload_config-IsHonoured_example =
    reload_config-IsHonoured fixed nobody api parsed (ok "") (λ h. completed) daemon refl

abbrev with_cache : Daemon fixed nobody api parsed
with_cache = record daemon { registry = (fingerprint 0x232B, main_controller) ∷ [] }

abbrev main_quad : Controller sim
main_quad = record {
  name = "main";
  dev = fresh 0x232B;
  fans =
      record { current_speed = 0; current_rpm = 0 }
      ∷ record { current_speed = 0; current_rpm = 0 }
      ∷ [];
}

main_builds : build_one_controller api main_controller ≡ ok main_quad
unfolding build_one_controller create_one
main_builds = refl

-- What the kernel still shows of the device once it is gone.
abbrev gone : Device to_str lossy
gone =
    record {
      id_vendor = none;
      id_vendor_id = some (hex_id 0x264A);
      id_product = none;
      id_model_id = some (hex_id 0x232B);
      id_serial_short = none;
      serial = none;
    }
    ∷ []

-- The loop of the watcher falls behind its thread, and catches up.
abbrev turns : List (Turn to_str lossy)
turns =
    yielded add device
    ∷ yielded remove gone
    ∷ received
    ∷ yielded add device
    ∷ received
    ∷ received
    ∷ []

device_ids : usb_ids to_str lossy device ≡ some (0x264a, 0x232b, none)
unfolding usb_ids parse_id trim_start from_str_radix from_digits hex_value
device_ids = refl

gone_ids : usb_ids to_str lossy gone ≡ some (0x264a, 0x232b, none)
unfolding usb_ids parse_id trim_start from_str_radix from_digits hex_value
gone_ids = refl

all_handled :
    let w : Watch ℕ = run_udev_watcher_service to_str lossy turns fresh_watch in w.queue ≡ []
unfolding run_udev_watcher_service usb_ids parse_id trim_start from_str_radix from_digits hex_value
    is_supported_hardware
all_handled = refl

replugged-IsPluggedIn_example :
    let S = AllServices fixed nobody in
    let w : Watch ℕ = run_udev_watcher_service to_str lossy turns fresh_watch in
    let (r, s) =
      run_main_loop api parsed S
        (delivered api parsed S (ok "") (λ h. completed) w.published)
        with_cache in
    (r ≡ none)
    × (s.registry ≡ with_cache.registry)
    × (s.coordinator ≡ with_cache.coordinator)
    × IsPluggedIn api 0x264a 0x232b none main_quad s.controllers
replugged-IsPluggedIn_example =
    replugged-IsPluggedIn to_str lossy device gone 0x264a 0x232b none device_ids gone_ids
      (unfold is_supported_hardware in refl) api parsed (AllServices fixed nobody) (ok "")
      (λ h. completed) main_controller main_quad 1 turns with_cache main_builds refl
      (unfold lookup in refl) refl all_handled

fallback_builds :
    build_one_controller api (create_fallback_config (shown 0x264a 0x232C none))
    ≡ ok learned_controller
unfolding build_one_controller create_one fallback_id decimal
fallback_builds = refl

unknown-IsPluggedIn_example :
    let S = AllServices fixed nobody in
    let (r, s) =
      run_main_loop api parsed S
        (delivered api parsed S (ok "") (λ h. completed) (hotplugged 0x264a 0x232C none 2))
        daemon in
    (r ≡ none)
    × (s.registry
        ≡ insert (shown 0x264a 0x232C none) (create_fallback_config (shown 0x264a 0x232C none)) [])
    × (s.coordinator ≡ daemon.coordinator)
    × IsPluggedIn api 0x264a 0x232C none learned_controller s.controllers
unknown-IsPluggedIn_example =
    unknown-IsPluggedIn api parsed (AllServices fixed nobody) (ok "") (λ h. completed) 0x264a 0x232C
      none learned_controller fallback_builds 2 daemon refl (unfold lookup in refl)

-- A device that comes twice, with no departure between, has two workers; its id has the second.
abbrev twice : ControllerManager (quad_controller sim)
twice =
    let f = fingerprint 0x232B in
    let C = quad_controller sim in
    let none_yet : ControllerManager C = record {
      worker_manager = new_manager C;
      controller_id2worker_id = [];
      fingerprint2controller_id = [];
    } in
    attach C f main_quad (attach C f main_quad none_yet)

first_orphaned :
    (twice.controller_id2worker_id ≡ ("main", some 2) ∷ [])
    × (lookup 1 twice.worker_manager.workers ≡ some (new_worker (quad_controller sim) main_quad))
unfolding attach start_worker insert lookup
first_orphaned = (refl, refl)

two_broadcasts :
    run_broadcast_service {F = ℕ} default_config (ticked ∷ ticked ∷ cancelled ∷ ticked ∷ [])
    ≡ (some (ok tt), temperature_changed [] ∷ temperature_changed [] ∷ [])
unfolding run_broadcast_service broadcast_loop broadcast_current_state
two_broadcasts = refl

no_period :
    run_broadcast_service {F = ℕ} (record default_config { tick_seconds = 0 }) (ticked ∷ [])
    ≡ (some panic, [])
unfolding run_broadcast_service
no_period = refl

not_named : run_dbus_service (ok tt) (err (io_error 1)) (ticked ∷ []) ≡ some (err (io_error 1))
unfolding run_dbus_service
not_named = refl

served : run_dbus_service (ok tt) (ok tt) (ticked ∷ cancelled ∷ []) ≡ some (ok tt)
unfolding run_dbus_service dbus_loop
served = refl
