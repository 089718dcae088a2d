-- ===== src/Tests/Brokers.antt =====
-- The table of handlers, the watcher of devices beside its thread, and the search for NVML.
use tt_riingd.Common.{
  ℕ, ◌≡◌, refl, List, [], ◌∷◌, ◌++◌, String, none, some, ◌+◌, lookup, insert, ok, if◌then◌else◌,
  All, ◌==◌, string_eq,
}
use tt_riingd.Config.{default_config}
use tt_riingd.Event.{monitoring, fan_color, health_check, success, device_connected}
use tt_riingd.Event.Single.{execute_single}
use tt_riingd.Event.Broker.{
  Channels, MessageBroker, with_capacity, register_handler, broker_services, execute_on, service_eq,
  health_check_query,
}
use tt_riingd.Event.Broker.Table.{on_channel, seen, execute_single-register_handler}
use tt_riingd.Udev.{
  add, monitor, publish, usb_ids, parse_id, trim_start, from_str_radix, from_digits, hex_value,
}
use tt_riingd.Registry.{is_supported_hardware}
use tt_riingd.Tests.Watching.{to_str, lossy, device}
use tt_riingd.Udev.Service.{
  Watch, Turn, yielded, received, failed, fresh_watch, run_udev_watcher_service, socket,
  run_udev_watcher_service-flows,
}
use tt_riingd.Sensors.Library.{
  Linker, NvmlLibrary, Resolves, lib_names, from_library, load_first, load, load-Resolves,
}

-- Channels that count the requests, whose tasks all succeed.
abbrev counters : Channels ℕ
counters = record {
  State = ℕ;
  serve = λ config handler p n. (some (ok success), n + 1);
  send = λ event n. (ok tt, n);
  subscribe = λ n. (0, n);
}

abbrev broker : MessageBroker counters
broker = register_handler counters monitoring 1 (with_capacity counters 0)

execute_single-register_handler_example :
    seen counters (
      execute_single
        (broker_services counters)
        default_config
        fan_color
        health_check
        (register_handler counters monitoring 2 broker))
    ≡ (if service_eq.beq monitoring fan_color
        then seen counters (on_channel counters default_config 2 health_check broker)
        else seen counters (
            execute_single (broker_services counters) default_config fan_color health_check broker))
execute_single-register_handler_example =
    execute_single-register_handler counters default_config monitoring fan_color 2 health_check
      broker

only_monitoring_answers :
    (execute_on counters default_config health_check_query broker).0 ≡ (monitoring, success) ∷ []
unfolding execute_on register_handler lookup insert
only_monitoring_answers = refl

-- The loop waits, a device is added, the socket fails, and the loop goes on.
abbrev turns : List (Turn to_str lossy)
turns = received ∷ yielded add device ∷ failed ∷ yielded add device ∷ received ∷ received ∷ []

run_udev_watcher_service-flows_example :
    let w : Watch ℕ = run_udev_watcher_service to_str lossy turns fresh_watch in
    w.published ++ publish w.queue ≡ publish (monitor to_str lossy (socket to_str lossy turns)).0
run_udev_watcher_service-flows_example = run_udev_watcher_service-flows to_str lossy turns

one_published :
    let w : Watch ℕ = run_udev_watcher_service to_str lossy turns fresh_watch in
    w.published ≡ device_connected 0x264A 0x232B none ∷ []
unfolding run_udev_watcher_service usb_ids parse_id trim_start from_str_radix from_digits hex_value
    is_supported_hardware
one_published = refl

-- A system with the second library, in which each function is found under its name.
abbrev linker : Linker
linker = record {
  Library = Unit {0};
  Symbol = String;
  open_library = λ name. if name == "libnvidia-ml.so" then some tt else none;
  get = λ lib name. some name;
}

abbrev library : NvmlLibrary linker
library = record {
  init = "nvmlInit_v2";
  shutdown = "nvmlShutdown";
  device_get_count = "nvmlDeviceGetCount_v2";
  device_get_handle_by_index = "nvmlDeviceGetHandleByIndex_v2";
  device_get_name = "nvmlDeviceGetName";
  device_get_temperature = "nvmlDeviceGetTemperature";
  error_string = "nvmlErrorString";
}

loads : load linker ≡ ok library
unfolding load load_first from_library
loads = refl

load-Resolves_example :
    (before behind : List String) × (name : String) × (lib : Unit {0}) × (lib_names linker
      ≡ before ++ name ∷ behind)
    × All (λ other. linker.open_library other ≡ none) before
    × (linker.open_library name ≡ some lib)
    × Resolves linker lib library
load-Resolves_example = load-Resolves linker library loads
