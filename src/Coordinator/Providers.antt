-- ===== src/Coordinator/Providers.antt =====
-- core/coordinator.rs with providers/traits.rs: the services, their order and their start.
use tt_riingd.Common.{
  ℕ, List, [], ◌∷◌, ◌++◌, String, Bool, true, false, Result, ok, err, panic, leb, if◌then◌else◌,
}
use tt_riingd.Tasks.{TaskManager, spawn_task}

pub record ServiceProvider : Type 0 where
  pub name : String
  pub priority : ℕ  -- i32; none is negative
  pub is_critical : Bool
  pub start : TaskManager → Result (Unit {0}) × TaskManager

-- A provider that starts one task, under its name.
abbrev pub one_task : String → ℕ → Bool → ServiceProvider
one_task name priority critical = record {
  name = name;
  priority = priority;
  is_critical = critical;
  start = spawn_task name;
}

abbrev pub then_spawn : String → Result (Unit {0}) × TaskManager → Result (Unit {0}) × TaskManager
then_spawn name (ok t, m) = spawn_task name m
then_spawn name (err e, m) = (err e, m)
then_spawn name (panic, m) = (panic, m)

unfoldable pub fan_color_start : TaskManager → Result (Unit {0}) × TaskManager
unfolding spawn_task
fan_color_start m = then_spawn "FanColorService_transmit" (spawn_task "FanColorService_calculate" m)

abbrev pub monitoring_provider : ServiceProvider
monitoring_provider = one_task "MonitoringService" 10 true

abbrev pub broadcast_provider : ServiceProvider
broadcast_provider = one_task "BroadcastService" 3 false

abbrev pub fan_color_provider : ServiceProvider
fan_color_provider = record {
  name = "FanColorService";
  priority = 4;
  is_critical = false;
  start = fan_color_start;
}

abbrev pub config_watcher_provider : ServiceProvider
config_watcher_provider = one_task "ConfigWatcherService" 6 false

abbrev pub udev_provider : ServiceProvider
udev_provider = one_task "UdevWatcher" 8 false

abbrev pub dbus_provider : ServiceProvider
dbus_provider = one_task "DBusService" 8 true

-- `sort_by_key` with `Reverse(priority)`: a stable sort.
unfoldable pub insert_provider : ServiceProvider → List ServiceProvider → List ServiceProvider
insert_provider p [] = p ∷ []
insert_provider p (q ∷ ps) =
    if leb q.priority p.priority then p ∷ q ∷ ps else q ∷ insert_provider p ps

unfoldable pub sort_providers : List ServiceProvider → List ServiceProvider
unfolding insert_provider
sort_providers [] = []
sort_providers (p ∷ ps) = insert_provider p (sort_providers ps)

-- Whether the session bus could be reached.
abbrev pub dbus_if : Bool → List ServiceProvider
dbus_if true = dbus_provider ∷ []
dbus_if false = []

unfoldable pub register_service_providers : Bool → List ServiceProvider
unfolding sort_providers
register_service_providers connected = sort_providers (
    (monitoring_provider ∷ broadcast_provider ∷ fan_color_provider ∷ config_watcher_provider
      ∷ udev_provider ∷ [])
    ++ dbus_if connected)

-- Behind the start of one provider: the rest, or the error of a critical one.
abbrev pub go_on :
    Result (Unit {0})
    → Bool
    → TaskManager
    → Result (Unit {0}) × TaskManager
    → Result (Unit {0}) × TaskManager
go_on (ok t) critical m rest = rest
go_on (err e) true m rest = (err e, m)
go_on (err e) false m rest = rest
go_on panic critical m rest = (panic, m)

unfoldable pub start_all_services :
    List ServiceProvider → TaskManager → Result (Unit {0}) × TaskManager
start_all_services [] m = (ok tt, m)
start_all_services (p ∷ ps) m =
    let (r, m') = p.start m in go_on r p.is_critical m' (start_all_services ps m')
