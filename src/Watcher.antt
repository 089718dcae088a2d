-- ===== src/Watcher.antt =====
-- providers/config_watcher.rs: events of the file system are collected, and the file is analysed at the
-- next tick of two seconds. The paths, with what the code asks of them, are a
-- parameter.
pub mod Debounce
use tt_riingd.Common.{
  ℕ, List, [], ◌∷◌, ◌++◌, String, Option, Bool, true, false, ◌&&◌, ◌||◌, Result, ok, err, panic,
  any, ◌==◌, string_eq, option_eq,
}
use tt_riingd.Config.{Config}
use tt_riingd.Config.Changes.{ConfigChangeType}
use tt_riingd.Config.Load.{analyze_config_changes}
use tt_riingd.Registry.{HidApi}
use tt_riingd.Event.{Event, config_change_detected}

-- The variable `has_pending_event` while the loop runs, or how it ended.
pub data WatcherState : Type 0 where
  watching : (has_pending_event : Bool) → WatcherState
  stopped : WatcherState
  panicked : WatcherState

-- The configuration file: the paths, the hardware that is found, and the parser.
pub record ConfigFile (F : Type 0) : Type 1 where
  pub Path' : Type 0
  pub same_path : Path' → Path' → Bool
  pub file_name : Path' → Option String
  pub config_path : Path'
  pub api : HidApi
  pub from_str : String → Result (Config F)

module _ {F : Type 0} (file : ConfigFile F) where
  open file use {Path', same_path, file_name, config_path, api, from_str}

  -- What `select!` takes next. A tick comes with the file and the configuration at that time; it is taken
  -- only if an event is pending.
  pub data Input : Type 0 where
    cancelled : Input
    fs_event : (paths : List Path') (is_modify is_create : Bool) → Input
    fs_error : Input
    fs_closed : Input
    tick : (exists_now : Bool) (content : Result String) (config : Config F) → Input

  abbrev pub affects_config : List Path' → Bool
  affects_config paths =
      any (λ path. same_path path config_path || file_name path == file_name config_path) paths

  abbrev pub mark_pending : Bool → Bool → WatcherState
  mark_pending true pending = watching true
  mark_pending false pending = watching pending

  -- Both kinds of change are published.
  abbrev pub publish_change : Result ConfigChangeType → WatcherState × List (Event F)
  publish_change (ok change_type) = (watching false, config_change_detected change_type ∷ [])
  publish_change (err e) = (watching false, [])
  publish_change panic = (panicked, [])

  abbrev pub on_tick : Bool → Bool → Result String → Config F → WatcherState × List (Event F)
  on_tick true true content config =
      publish_change (analyze_config_changes api from_str content config)
  on_tick true false content config = (watching false, [])
  on_tick false exists_now content config = (watching false, [])

  unfoldable pub step : Input → WatcherState → WatcherState × List (Event F)
  unfolding analyze_config_changes
  step cancelled (watching pending) = (stopped, [])
  step (fs_event paths is_modify is_create) (watching pending) =
      (mark_pending (affects_config paths && (is_modify || is_create)) pending, [])
  step fs_error (watching pending) = (watching pending, [])
  step fs_closed (watching pending) = (stopped, [])
  step (tick exists_now content config) (watching pending) =
      on_tick pending exists_now content config
  step i stopped = (stopped, [])
  step i panicked = (panicked, [])

  unfoldable pub run : List Input → WatcherState → WatcherState × List (Event F)
  unfolding step
  run [] s = (s, [])
  run (i ∷ inputs) s =
      let (s', events) = step i s in let (s'', more) = run inputs s' in (s'', events ++ more)
