-- ===== src/Bootstrap/Ending.antt =====
-- How the program of bin/main.rs ends.
use tt_riingd.Common.{
  ℕ, String, Option, some, true, Result, ok, err, panic, List, ◌∷◌, ◌++◌, ◌≡◌, refl,
}
use tt_riingd.Config.{Config}
use tt_riingd.Config.Loaded.{IsLoaded}
use tt_riingd.Config.Locate.{Environment, ConfigManager, load, load-IsLoaded}
use tt_riingd.Registry.{HidApi}
use tt_riingd.Event.{Services}
use tt_riingd.Tasks.{TaskEnd}
use tt_riingd.Coordinator.MainLoop.{Turn, ctrl_c}
use tt_riingd.Coordinator.Ends.{IsDown}
use tt_riingd.Coordinator.Application.{run_ok}
use tt_riingd.Bootstrap.{
  LogEnvironment, Log, Cli, World, Ended, init_tracing, init_daemon, then_application, then_load,
  run, then_run, main,
}

module _ (log : LogEnvironment) (env : Environment) {F : Type 0} (api : HidApi)
    (from_str : String → Result (Config F)) (S : Services F) where
  abbrev Place : Type 0
  Place = World log env api from_str S

  -- A configuration was loaded for the path, Ctrl-C ended the main loop, and all is down.
  abbrev pub EndedWell : Option env.PathBuf → Place → Ended log env api from_str S → Type 0
  EndedWell path w e =
      ((m : ConfigManager env api from_str) × (load env api from_str path ≡ ok m)
        × IsLoaded api m.config)
      × ((before behind : List (Turn api from_str S)) × (ends : ℕ → TaskEnd) × (w.turns
            ≡ before ++ ctrl_c true ends ∷ behind))
      × IsDown api from_str S e.1

  application_ok :
      (path : Option env.PathBuf) (r : Result (ConfigManager env api from_str)) (w : Place)
      → load env api from_str path ≡ r
      → (then_application log env api from_str S r w).0 ≡ some (ok tt)
      → EndedWell path w (then_application log env api from_str S r w)
  application_ok path (ok m) w e h =
      let (turned, down) = run_ok api from_str S w.connected m.config w.turns w.system h in
      ((m, e, (load-IsLoaded env api from_str path m e).0), turned, down)
  application_ok path (err e) w _ h = cc
  application_ok path panic w _ h = cc

  load_ok :
      (r : Result Log) (path : Option env.PathBuf) (w : Place)
      → (then_load log env api from_str S r path w).0 ≡ some (ok tt)
      → ((guard : Log) × (r ≡ ok guard))
        × EndedWell path w (then_load log env api from_str S r path w)
  load_ok (ok guard) path w h =
      ((guard, refl), application_ok path (load env api from_str path) w refl h)
  load_ok (err e) path w h = cc
  load_ok panic path w h = cc

  main_run_ok :
      (r : Result (Unit {0})) (cli : Cli env.PathBuf) (w : Place)
      → (then_run log env api from_str S r cli w).0 ≡ some (ok tt)
      → ((guard : Log) × (init_tracing log cli.daemonize ≡ ok guard))
        × EndedWell cli.config_path w (then_run log env api from_str S r cli w)
  unfolding run
  main_run_ok (ok t) cli w h = load_ok (init_tracing log cli.daemonize) cli.config_path w h
  main_run_ok (err e) cli w h = cc
  main_run_ok panic cli w h = cc

  -- When the program ends without an error, the log was set up, the configuration for the path of
  -- the command line was loaded and is fit for the daemon, and Ctrl-C was among the turns of the
  -- main loop. The task manager was cancelled then and holds no task any more, and the controller
  -- manager of an initialized daemon holds no worker. That a task which did not end in time has
  -- stopped is not said.
  pub main_ok :
      (daemonized : Result (Unit {0})) (cli : Cli env.PathBuf) (w : Place)
      → (main log env api from_str S daemonized cli w).0 ≡ some (ok tt)
      → ((guard : Log) × (init_tracing log cli.daemonize ≡ ok guard))
        × EndedWell cli.config_path w (main log env api from_str S daemonized cli w)
  unfolding main
  main_ok daemonized cli w h = main_run_ok (init_daemon daemonized cli.daemonize) cli w h
