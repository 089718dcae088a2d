-- ===== src/Tests/Starts.antt =====
-- The start, the loop and the end of the daemon.
use tt_riingd.Common.{
  ℕ, zero, suc, ◌≡◌, refl, ◌↔◌, List, [], ◌∷◌, map, some, Bool, true, false, ok, err, insert,
  string_eq, io_error, shutdown_requested,
}
use tt_riingd.Config.{default_config}
use tt_riingd.Event.{system_shutdown}
use tt_riingd.Tasks.{TaskManager, TaskEnd, completed, failed_with, timed_out, new_tasks, spawn_task}
use tt_riingd.Coordinator.Providers.{
  ServiceProvider, monitoring_provider, broadcast_provider, udev_provider, dbus_provider,
  insert_provider, sort_providers, register_service_providers, start_all_services,
}
use tt_riingd.Coordinator.Startup.{
  IsDescending, with_priority, sort_providers-IsDescending, Starts, none_left, started, skipped,
  start_all_services_iff,
}
use tt_riingd.Coordinator.MainLoop.{SystemCoordinator, received, event_turn, run_main_loop}
use tt_riingd.Coordinator.Ends.{IsDown, stop-IsDown}
use tt_riingd.Tests.Configs.{parsed}
use tt_riingd.Tests.Registries.{api}
use tt_riingd.Tests.Managers.{first_manager}
use tt_riingd.Tests.Reloads.{failing}

abbrev two_tasks : TaskManager
two_tasks = record { tasks = ("a", 0) ∷ ("b", 1) ∷ ("c", 2) ∷ []; cancelled = false; spawned = 3 }

-- The second task fails, and the third does not end in time.
abbrev ends : ℕ → TaskEnd
ends zero = completed
ends (suc zero) = failed_with (io_error 5)
ends (suc (suc n)) = timed_out

abbrev unsorted : List ServiceProvider
unsorted = broadcast_provider ∷ udev_provider ∷ dbus_provider ∷ monitoring_provider ∷ []

sorted-IsDescending :
    IsDescending (sort_providers unsorted)
    × ((k : ℕ) → with_priority k (sort_providers unsorted) ≡ with_priority k unsorted)
sorted-IsDescending = sort_providers-IsDescending unsorted

registered_names :
    map (λ p. p.name) (register_service_providers true)
    ≡ "MonitoringService" ∷ "UdevWatcher" ∷ "DBusService" ∷ "ConfigWatcherService"
      ∷ "FanColorService" ∷ "BroadcastService" ∷ []
unfolding register_service_providers sort_providers insert_provider
registered_names = refl

-- A provider that fails to start.
abbrev broken : Bool → ServiceProvider
broken critical = record {
  name = "broken";
  priority = 5;
  is_critical = critical;
  start = λ m. (err (io_error 1), m);
}

abbrev pub one_spawned : TaskManager
one_spawned = record { tasks = ("MonitoringService", 0) ∷ []; cancelled = false; spawned = 1 }

first_starts : monitoring_provider.start new_tasks ≡ (ok tt, one_spawned)
unfolding spawn_task insert
first_starts = refl

abbrev in_order : Starts (monitoring_provider ∷ broken false ∷ []) new_tasks one_spawned
in_order = started first_starts (skipped refl refl none_left)

start_all_services_iff_example :
    (start_all_services (monitoring_provider ∷ broken false ∷ []) new_tasks ≡ (ok tt, one_spawned))
    ↔ Starts (monitoring_provider ∷ broken false ∷ []) new_tasks one_spawned
start_all_services_iff_example =
    start_all_services_iff (monitoring_provider ∷ broken false ∷ []) new_tasks one_spawned

abbrev system : SystemCoordinator api parsed failing
system = record {
  coordinator = record {
    initialized = true;
    config = default_config;
    transaction_counter = 1;
    services = 0;
  };
  controllers = first_manager;
  registry = [];
  task_manager = one_spawned;
}

stopped-IsDown :
    let (r, s) =
      run_main_loop api parsed failing
        (event_turn (ok "") (λ h. completed) (received system_shutdown) ∷ [])
        system in
    (r ≡ some (err shutdown_requested)) × IsDown api parsed failing s
stopped-IsDown = stop-IsDown api parsed failing (ok "") (λ h. completed) [] system

abbrev pub fresh_system : SystemCoordinator api parsed failing
fresh_system = record system {
  coordinator = record {
    initialized = false;
    config = default_config;
    transaction_counter = 1;
    services = 0;
  };
  task_manager = new_tasks;
}
