-- ===== src/Manager/Delivery.antt =====
-- From a batch of drivers/controller_manager.rs to the packets on the devices.
use mathlib.Core.Path.{subst}
use tt_riingd.Common.{
  ℕ, List, [], String, Option, none, some, true, ◌≡◌, refl, ap, sym, Dict, lookup, string_eq,
  nat_eq, IsMap,
}
use tt_riingd.Protocol
use tt_riingd.Hid.{HidDevice}
use tt_riingd.Quad.{Controller}
use tt_riingd.Quad.Compliant.{Compliant}
use tt_riingd.Quad.Batch.{
  Acknowledges, obey_all, speed_commands, color_commands, update_speed_batch-eq,
  update_color_batch-eq,
}
use tt_riingd.Worker.{Worker, Command, set_speeds, set_colors, handle}
use tt_riingd.Worker.Queue.{Runs, idle, call-eq}
use tt_riingd.Batch.Delivery.{served, update_blocking-served}
use tt_riingd.Manager.{ControllerManager, blocking, quad_controller, update_entries}
use tt_riingd.Manager.Validity.{IsValid}

module _ {D : HidDevice} (c : Compliant D) where
  -- Once what waits for the worker is done, its device is in this state.
  abbrev pub Settles : Worker (quad_controller D) → D.State → Type 0
  Settles w dev =
      (q : Controller D) × Runs (quad_controller D) w.queue w.controller q × (q.dev ≡ dev)

  abbrev pub packets_of :
      {B : Type 0} → (B → List Protocol.Command) → Option B → List Protocol.Command
  packets_of packets none = []
  packets_of packets (some batch) = packets batch

module _ {D : HidDevice} (c : Compliant D) {B : Type 0} (command : B → Command)
    (packets : B → List Protocol.Command)
    (obeyed : (batch : B) (q : Controller D)
      → (handle (quad_controller D) (command batch) q).1.dev
        ≡ obey_all c (packets batch) q.dev) where
  served-Settles :
      (o : Option B) (w : Worker (quad_controller D)) (q : Controller D)
      → w.running ≡ true
      → Runs (quad_controller D) w.queue w.controller q
      → Settles c
          (served {C = quad_controller D} command o w)
          (obey_all c (packets_of c packets o) q.dev)
  served-Settles none w q live runs = (q, runs, refl)
  served-Settles (some batch) w q live runs =
      subst (λ r. Settles c r.1 (obey_all c (packets batch) q.dev))
        (sym (call-eq (quad_controller D) (command batch) w q live runs))
        ((handle (quad_controller D) (command batch) q).1, idle, obeyed batch q)

  delivers :
      (entries : Dict String B) (m : ControllerManager (quad_controller D))
      → IsValid m
      → IsMap entries
      → (id : String) (worker : ℕ) (w : Worker (quad_controller D)) (q : Controller D)
      → lookup id m.controller_id2worker_id ≡ some (some worker)
      → lookup worker m.worker_manager.workers ≡ some w
      → w.running ≡ true
      → Runs (quad_controller D) w.queue w.controller q
      → (w' : Worker (quad_controller D)) × (lookup worker
            (update_entries (quad_controller D) blocking command entries m).1.worker_manager.workers
          ≡ some w')
        × Settles c w' (obey_all c (packets_of c packets (lookup id entries)) q.dev)
  unfolding update_entries
  delivers entries m v once id worker w q assigned here live runs = (
    served {C = quad_controller D} command (lookup id entries) w,
    update_blocking-served command m.controller_id2worker_id v.distinct id worker assigned entries
        m.worker_manager w once here,
    served-Settles (lookup id entries) w q live runs,
  )

module _ {D : HidDevice} (c : Compliant D) (a : Acknowledges c) where
  speeds-obeyed :
      (batch : List (ℕ × ℕ)) (q : Controller D)
      → (handle (quad_controller D) (set_speeds batch) q).1.dev
        ≡ obey_all c (speed_commands batch) q.dev
  unfolding handle
  speeds-obeyed batch q = ap (λ r. r.1.dev) (update_speed_batch-eq c a batch q)

  colors-obeyed :
      (batch : List (ℕ × List Protocol.Rgb)) (q : Controller D)
      → (handle (quad_controller D) (set_colors batch) q).1.dev
        ≡ obey_all c (color_commands batch) q.dev
  unfolding handle
  colors-obeyed batch q = ap (λ r. r.1.dev) (update_color_batch-eq c a batch q)

  module _ (m : ControllerManager (quad_controller D)) (v : IsValid m) (id : String) (worker : ℕ)
      (w : Worker (quad_controller D)) (q : Controller D)
      (assigned : lookup id m.controller_id2worker_id ≡ some (some worker))
      (here : lookup worker m.worker_manager.workers ≡ some w) (live : w.running ≡ true)
      (runs : Runs (quad_controller D) w.queue w.controller q) where
    -- The worker, and with it its device, behind a batch of speeds.
    pub speeds_delivered :
        (entries : Dict String (List (ℕ × ℕ)))
        → IsMap entries
        → (w' : Worker (quad_controller D)) × (lookup worker
              (update_entries
                (quad_controller D)
                blocking
                set_speeds
                entries
                m).1.worker_manager.workers
            ≡ some w')
          × Settles c w' (obey_all c (packets_of c speed_commands (lookup id entries)) q.dev)
    speeds_delivered entries once =
        delivers c set_speeds speed_commands speeds-obeyed entries m v once id worker w q assigned
          here live runs

    pub colors_delivered :
        (entries : Dict String (List (ℕ × List Protocol.Rgb)))
        → IsMap entries
        → (w' : Worker (quad_controller D)) × (lookup worker
              (update_entries
                (quad_controller D)
                blocking
                set_colors
                entries
                m).1.worker_manager.workers
            ≡ some w')
          × Settles c w' (obey_all c (packets_of c color_commands (lookup id entries)) q.dev)
    colors_delivered entries once =
        delivers c set_colors color_commands colors-obeyed entries m v once id worker w q assigned
          here live runs
