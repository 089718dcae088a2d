-- ===== src/Tests/Endings.antt =====
-- The program from its start to its end.
use tt_riingd.Common.{ap, ◌≡◌, refl, ◌∙◌, [], ◌∷◌, none, some, true, false, ok, string_eq, insert}
use tt_riingd.Bootstrap.{
  LogEnvironment, Cli, World, Log, stdout, pretty, init_tracing, init_daemon, run, main,
  then_application,
}
use tt_riingd.Bootstrap.Ending.{EndedWell, main_ok}
use tt_riingd.Config.Locate.{load, locate_config}
use tt_riingd.Coordinator.Application
use tt_riingd.Coordinator.Application.{initialize}
use tt_riingd.Coordinator.MainLoop.{ctrl_c, run_main_loop}
use tt_riingd.Coordinator.Providers.{
  fan_color_start, insert_provider, sort_providers, register_service_providers, start_all_services,
}
use tt_riingd.Manager.Setup.{init_from_cfg}
use tt_riingd.Registry.{
  build_controllers, merge_with_config, detect, controller_exists, build_one_controller,
}
use tt_riingd.Tasks.{completed, spawn_task}
use tt_riingd.Tests.Configs.{parsed, loaded}
use tt_riingd.Tests.Registries.{api}
use tt_riingd.Tests.Reloads.{failing}
use tt_riingd.Tests.Sources.{env, finds}
use tt_riingd.Tests.Starts.{fresh_system}

abbrev log : LogEnvironment
log = record {
  log_format = some "pretty";
  log_target = none;
  env_filter = ok tt;
  syslog_writer = ok tt;
  file_appender = ok tt;
  init = λ f. ok tt;
}

logs : init_tracing log false ≡ ok (stdout pretty)
unfolding init_tracing
logs = refl

abbrev cli : Cli env.PathBuf
cli = record { config_path = none; daemonize = false }

abbrev world : World log env api parsed failing
world = record {
  connected = true;
  turns = ctrl_c true (λ h. completed) ∷ [];
  system = fresh_system;
}

application_ends :
    (Application.run api parsed failing true loaded world.turns fresh_system).0 ≡ some (ok tt)
unfolding Application.run initialize register_service_providers sort_providers insert_provider
    start_all_services spawn_task fan_color_start insert run_main_loop init_from_cfg
    build_controllers merge_with_config detect controller_exists build_one_controller
application_ends = refl

ends_well : (main log env api parsed failing (ok tt) cli world).0 ≡ some (ok tt)
unfolding main run init_daemon init_tracing load locate_config
ends_well =
    ap (λ r. (then_application log env api parsed failing r world).0) finds ∙ application_ends

main_ok_example :
    ((guard : Log) × (init_tracing log false ≡ ok guard))
    × EndedWell log env api parsed failing none world
        (main log env api parsed failing (ok tt) cli world)
main_ok_example = main_ok log env api parsed failing (ok tt) cli world ends_well
