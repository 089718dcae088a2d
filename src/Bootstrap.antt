-- ===== src/Bootstrap.antt =====
-- bin/main.rs with bootstrap/logging.rs, daemon.rs, runtime.rs and cli.rs: from the command line to
-- `Application::run`. The subscriber of tracing, the process's fork, syslog and the log file are
-- parameters, by whether they succeed.
pub mod Syslog
pub mod Ending
use tt_riingd.Common.{
  String, Option, none, some, Bool, true, false, Result, ok, err, panic, ◌>>=◌, List, if◌then◌else◌,
  ◌==◌, string_eq, invalid_log_target,
}
use tt_riingd.Config.{Config}
use tt_riingd.Config.Locate.{Environment, ConfigManager, load}
use tt_riingd.Registry.{HidApi}
use tt_riingd.Event.{Services}
use tt_riingd.Coordinator.MainLoop.{SystemCoordinator, Turn}
use tt_riingd.Coordinator.Application

-- How the lines of the log are laid out.
pub data Format : Type 0 where
  json pretty compact : Format

-- `Cli`, with paths of the type `P`.
pub record Cli (P : Type 0) : Type 0 where
  pub config_path : Option P
  pub daemonize : Bool

-- What `init_tracing` reads, and whether the parts of it succeed: the filter, of RUST_LOG or the
-- default one, the connection to syslog, the file that is opened for the day, and `init` of the
-- registry.
pub record LogEnvironment : Type 0 where
  pub log_format : Option String
  pub log_target : Option String
  pub env_filter : Result (Unit {0})
  pub syslog_writer : Result (Unit {0})
  pub file_appender : Result (Unit {0})
  pub init : Format → Result (Unit {0})

-- The subscriber that `init_tracing` leaves.
pub data Log : Type 0 where
  syslog : Log
  file : (format : Format) → Log
  stdout : (format : Format) → Log

abbrev pub file_format : String → Format
file_format f = if f == "json" then json else compact

abbrev pub stdout_format : String → Format
stdout_format f = if f == "json" then json else if f == "pretty" then pretty else compact

abbrev pub unwrap_or_else : Option String → String → String
unwrap_or_else none s = s
unwrap_or_else (some v) s = v

abbrev pub default_target : Bool → String
default_target is_daemon = if is_daemon then "syslog" else "stdout"

module _ (log : LogEnvironment) where
  abbrev pub init_syslog : Result Log
  init_syslog = do _ ← log.syslog_writer; _ ← log.init compact; ok syslog

  abbrev pub init_file : Format → Result Log
  init_file format = do _ ← log.file_appender; _ ← log.init format; ok (file format)

  abbrev pub init_stdout : Format → Result Log
  init_stdout format = do _ ← log.init format; ok (stdout format)

  abbrev pub init_target : String → String → Result Log
  init_target target format =
      if target == "syslog"
      then init_syslog
      else if target == "file"
      then init_file (file_format format)
      else if target == "stdout"
      then init_stdout (stdout_format format)
      else err invalid_log_target

  unfoldable pub init_tracing : Bool → Result Log
  init_tracing is_daemon =
      let target = unwrap_or_else log.log_target (default_target is_daemon) in
      let format = unwrap_or_else log.log_format "compact" in
      do _ ← log.env_filter; init_target target format

-- `daemonized`: the log of the process, and its fork.
unfoldable pub init_daemon : Result (Unit {0}) → Bool → Result (Unit {0})
init_daemon daemonized daemonize = if daemonize then daemonized else ok tt

module _ (log : LogEnvironment) (env : Environment) {F : Type 0} (api : HidApi)
    (from_str : String → Result (Config F)) (S : Services F) where
  -- `none`: the program still runs.
  abbrev pub Ended : Type 0
  Ended = Option (Result (Unit {0})) × SystemCoordinator api from_str S

  -- What the environment still decides: whether the session bus can be reached, and the turns of
  -- the main loop; and `SystemCoordinator::new`.
  pub record World : Type 0 where
    pub connected : Bool
    pub turns : List (Turn api from_str S)
    pub system : SystemCoordinator api from_str S

  abbrev pub then_application : Result (ConfigManager env api from_str) → World → Ended
  then_application (ok m) w = Application.run api from_str S w.connected m.config w.turns w.system
  then_application (err e) w = (some (err e), w.system)
  then_application panic w = (some panic, w.system)

  abbrev pub then_load : Result Log → Option env.PathBuf → World → Ended
  then_load (ok guard) path w = then_application (load env api from_str path) w
  then_load (err e) path w = (some (err e), w.system)
  then_load panic path w = (some panic, w.system)

  unfoldable pub run : Option env.PathBuf → Bool → World → Ended
  unfolding init_tracing load Application.run
  run path is_daemon w = then_load (init_tracing log is_daemon) path w

  abbrev pub then_run : Result (Unit {0}) → Cli env.PathBuf → World → Ended
  then_run (ok t) cli w = run cli.config_path cli.daemonize w
  then_run (err e) cli w = (some (err e), w.system)
  then_run panic cli w = (some panic, w.system)

  unfoldable pub main : Result (Unit {0}) → Cli env.PathBuf → World → Ended
  unfolding run init_daemon
  main daemonized cli w = then_run (init_daemon daemonized cli.daemonize) cli w
