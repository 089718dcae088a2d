-- ===== src/Monitoring/Delivered.antt =====
-- From the temperatures to the packets: what a tick of the monitoring service makes the devices do.
use tt_riingd.Common.{
  ℕ, List, String, Option, none, some, true, ok, ◌≡◌, refl, ap, ◌∙◌, All, lookup, string_eq, nat_eq,
}
use tt_riingd.Floats.{Floats, IeeeLaws}
use tt_riingd.Hid.{HidDevice}
use tt_riingd.Mapping.{FanRef}
use tt_riingd.Quad.{Controller}
use tt_riingd.Quad.Compliant.{Compliant}
use tt_riingd.Quad.Batch.{Acknowledges, obey_all, speed_commands}
use tt_riingd.Worker.{Worker}
use tt_riingd.Worker.Queue.{Runs}
use tt_riingd.Manager.{ControllerManager, quad_controller, batch_update}
use tt_riingd.Manager.Validity.{IsValid}
use tt_riingd.Manager.Delivery.{Settles, packets_of, speeds_delivered}
use tt_riingd.Monitoring.{MonitoringCache}
use tt_riingd.Monitoring.Tick.{or_default, collect_and_process_temperatures}
use tt_riingd.Monitoring.Batches.{demands, speeds_of, speeds_for}
use tt_riingd.Monitoring.Driven.{IsDriven, driven_tick}

-- A controller without an entry gets no packet.
packets_of-speeds :
    {D : HidDevice} (c : Compliant D) (o : Option (List (ℕ × ℕ)))
    → packets_of c speed_commands o ≡ speed_commands (or_default o)
packets_of-speeds c none = refl
packets_of-speeds c (some batch) = refl

module _ (R : Floats) (laws : IeeeLaws R) {D : HidDevice} (c : Compliant D)
    (a : Acknowledges c) where
  -- For a device that obeys the protocol and acknowledges every command that sets a speed or
  -- colours, and a valid manager: a tick in which each fan of a sensor that could be read is driven
  -- by a usable curve brings the speeds to the hardware. Once a running worker has done what waits
  -- for it, the device of its controller has obeyed, behind that, the packets for the speeds of its
  -- own fans, in the order of the sensors, and no others.
  pub tick_delivers :
      (sensors : List (String × Option R.F)) (cache : MonitoringCache R.F)
      (m : ControllerManager (quad_controller D))
      → IsValid m
      → All (λ d. IsDriven R laws cache.mapping_cache d.0) (demands R cache.mapping_cache sensors)
      → (id : String) (worker : ℕ) (w : Worker (quad_controller D)) (q : Controller D)
      → lookup id m.controller_id2worker_id ≡ some (some worker)
      → lookup worker m.worker_manager.workers ≡ some w
      → w.running ≡ true
      → Runs (quad_controller D) w.queue w.controller q
      → let m' = (collect_and_process_temperatures R (quad_controller D) sensors cache m).2 in
        (speeds : List (FanRef × ℕ)) × (w' : Worker (quad_controller D)) × (speeds_of R
            cache.mapping_cache
            (demands R cache.mapping_cache sensors)
          ≡ ok speeds)
        × (lookup worker m'.worker_manager.workers ≡ some w')
        × Settles c w' (obey_all c (speed_commands (speeds_for id speeds)) q.dev)
  unfolding batch_update
  tick_delivers sensors cache m v driven id worker w q assigned here live runs =
      let (speeds, buffer, e, grouped, once, sends) =
        driven_tick R laws (quad_controller D) sensors cache m driven in
      let (w', found, (q', settled, reached)) =
        speeds_delivered c a m v id worker w q assigned here live runs buffer.batch_data once in
      let packets =
        packets_of-speeds c (lookup id buffer.batch_data) ∙ ap speed_commands (grouped id) in
      (
        speeds,
        w',
        e,
        ap (λ r. lookup worker r.2.worker_manager.workers) sends ∙ found,
        (q', settled, reached ∙ ap (λ cmds. obey_all c cmds q.dev) packets),
      )
