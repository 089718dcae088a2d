-- ===== src/Monitoring/Service.antt =====
-- The task of providers/monitoring.rs: `run_monitoring_service`, one turn for each arm of its `select!`.
use tt_riingd.Common.{List, [], ◌∷◌, String, Option, Result, ok, err, panic, ◌≡◌}
use tt_riingd.Floats.{Floats}
use tt_riingd.Config.{Config}
use tt_riingd.Event.{RequestPayload, Event, commit_config_update}
use tt_riingd.Worker.{FanController}
use tt_riingd.Manager.{ControllerManager}
use tt_riingd.Monitoring.{MonitoringCache, handle_event, handle_notify}
use tt_riingd.Monitoring.Tick.{collect_and_process_temperatures}

-- The task runs, or has ended with `Ok`, or by a panic.
pub data Running : Type 0 where
  running : Running
  ended : Running
  task_panic : Running

module _ (R : Floats) (C : FanController) where
  pub data Turn : Type 0 where
    cancelled : Turn
    request : (config : Config R.F) (payload : RequestPayload R.F) → Turn
    requests_closed : Turn
    notified : (event : Event R.F) → Turn
    missed : Turn
    ticked : (readings : List (String × Option R.F)) → Turn

  abbrev pub Service : Type 0
  Service = MonitoringCache R.F × ControllerManager C

  -- A tick that fails is logged, and the loop goes on.
  abbrev pub after_tick : Result (Unit {0}) × Service → Running × Service
  after_tick (ok t, s) = (running, s)
  after_tick (err e, s) = (running, s)
  after_tick (panic, s) = (task_panic, s)

  unfoldable pub turn : Turn → Service → Running × Service
  unfolding collect_and_process_temperatures handle_event handle_notify
  turn cancelled s = (ended, s)
  turn (request config payload) (cache, m) = (running, ((handle_event config payload cache).1, m))
  turn requests_closed s = (ended, s)
  turn (notified event) (cache, m) = (running, (handle_notify event cache, m))
  turn missed s = (running, s)
  turn (ticked readings) (cache, m) =
      let (r, cache', m') = collect_and_process_temperatures R C readings cache m in
      after_tick (r, (cache', m'))

  abbrev pub go_on : Running × Service → Running × Service → Running × Service
  go_on (running, s) rest = rest
  go_on (ended, s) rest = (ended, s)
  go_on (task_panic, s) rest = (task_panic, s)

  unfoldable pub run_monitoring_service : List Turn → Service → Running × Service
  unfolding turn
  run_monitoring_service [] s = (running, s)
  run_monitoring_service (t ∷ turns) s =
      let next = turn t s in go_on next (run_monitoring_service turns next.1)

  -- Any turn but a commit.
  abbrev pub IsUncommitted : Turn → Type 0
  IsUncommitted (notified (commit_config_update id)) = ⊥
  IsUncommitted _ = Unit

  abbrev SameMapping : Service → MonitoringCache R.F → Type 0
  SameMapping s cache = s.0.mapping_cache ≡ cache.mapping_cache
