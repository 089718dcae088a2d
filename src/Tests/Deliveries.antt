-- ===== src/Tests/Deliveries.antt =====
-- What reaches the simulated hardware, and the histories of its manager.
use tt_riingd.Common.{
  ℕ, ◌<◌, ◌≡◌, refl, List, [], ◌∷◌, String, Option, none, some, false, ◌+◌, ok, All, lookup, insert,
  string_eq, nat_eq, replicate, arith,
}
use tt_riingd.Protocol.{Rgb}
use tt_riingd.Config.{constant}
use tt_riingd.Mapping.{FanRef, fan_eq, get_curve_for_fan, fans_for_sensor}
use tt_riingd.Quad.{Controller}
use tt_riingd.Quad.Batch.{obey_all, speed_commands, color_commands}
use tt_riingd.Worker.{Worker, new_worker, initialize}
use tt_riingd.Worker.Queue.{Runs, idle}
use tt_riingd.Manager.{
  ControllerManager, quad_controller, attach, batch_update, device_disconnected, blocking,
  batch_init,
}
use tt_riingd.Manager.Validity.{IsValid}
use tt_riingd.Manager.Start.{init_from_cfg-IsValid}
use tt_riingd.Manager.Delivery.{Settles}
use tt_riingd.Manager.History.{batched, plugged, unplugged, Reach, here, next, Reach-IsValid}
use tt_riingd.Monitoring.{MappingCache, MonitoringCache, empty_cache}
use tt_riingd.Monitoring.Tick.{find_curve, or_default, collect_and_process_temperatures}
use tt_riingd.Monitoring.Batches.{demands, speeds_of, speeds_for}
use tt_riingd.Monitoring.Driven.{IsDriven}
use tt_riingd.Monitoring.Delivered.{tick_delivers}
use tt_riingd.Colors.{
  DoubleBuffer, get_read_buffer, get_write_buffer, controller_leds, calculate_fan_colors,
  transmit_color_changes,
}
use tt_riingd.Colors.Delivered.{frame_delivers}
use tt_riingd.Colors.Leds.{leds_at, painted, last_color, yields}
use tt_riingd.Colors.Shown.{Answers, calculated_frame}
use tt_riingd.Tests.Frames.{store}
use tt_riingd.Tests.Curves.{fixed, fixed-laws}
use tt_riingd.Tests.Device.{sim, quad, idle_fan, fingerprint, sim-Compliant, sim-Acknowledges}
use tt_riingd.Tests.Managers.{first_manager, start_cfgs, starts}
use tt_riingd.Tests.Registries.{api}

first_manager-IsValid : IsValid first_manager
first_manager-IsValid =
    (init_from_cfg-IsValid api start_cfgs [] first_manager (omega arith) starts).0

abbrev fan : ℕ → FanRef
fan channel = record { controller_id = "main"; channel = channel }

abbrev cache : MappingCache ℕ
cache = record {
  mappings = record {
    fans2sensor = (fan 1, "cpu") ∷ (fan 2, "gpu") ∷ [];
    sensor2fans = ("cpu", fan 1 ∷ []) ∷ ("gpu", fan 2 ∷ []) ∷ [];
  };
  curves = constant "quiet" 35 ∷ [];
  active_curves = (fan 1, "quiet") ∷ (fan 2, "quiet") ∷ [];
}

abbrev monitoring_cache : MonitoringCache ℕ
monitoring_cache = record { sensor_data = []; mapping_cache = cache; new_mapping = empty_cache }

abbrev readings : List (String × Option ℕ)
readings = ("cpu", some 51200) ∷ ("board", none) ∷ ("gpu", some 61440) ∷ []

is_driven :
    (f : FanRef)
    → f.channel < 256
    → get_curve_for_fan cache.active_curves f ≡ some "quiet"
    → IsDriven fixed fixed-laws cache f
unfolding find_curve
is_driven f small active = record {
  small = small;
  name = "quiet";
  active = active;
  curve = constant "quiet" 35;
  found = refl;
  usable = tt;
}

demands-AreDriven : All (λ d. IsDriven fixed fixed-laws cache d.0) (demands fixed cache readings)
unfolding fans_for_sensor lookup get_curve_for_fan
demands-AreDriven =
    (is_driven (fan 1) (omega arith) refl, (is_driven (fan 2) (omega arith) refl, tt))

abbrev main_quad : Controller sim
main_quad = record quad { fans = idle_fan ∷ idle_fan ∷ []; name = "main" }

abbrev main_worker : Worker (quad_controller sim)
main_worker = new_worker (quad_controller sim) main_quad

main_assigned : lookup "main" first_manager.controller_id2worker_id ≡ some (some 1)
unfolding lookup
main_assigned = refl

main_present : lookup 1 first_manager.worker_manager.workers ≡ some main_worker
unfolding lookup insert initialize
main_present = refl

main_idle : Runs (quad_controller sim) main_worker.queue main_worker.controller main_quad
main_idle = idle

tick_delivers_example :
    let m' =
      (collect_and_process_temperatures fixed
        (quad_controller sim)
        readings
        monitoring_cache
        first_manager).2 in
    (speeds : List (FanRef × ℕ)) × (w' : Worker (quad_controller sim)) × (speeds_of fixed cache
        (demands fixed cache readings)
      ≡ ok speeds)
    × (lookup 1 m'.worker_manager.workers ≡ some w')
    × Settles sim-Compliant w'
        (obey_all sim-Compliant (speed_commands (speeds_for "main" speeds)) main_quad.dev)
tick_delivers_example =
    tick_delivers fixed fixed-laws sim-Compliant sim-Acknowledges readings monitoring_cache
      first_manager first_manager-IsValid demands-AreDriven "main" 1 main_worker main_quad
      main_assigned main_present refl main_idle

abbrev red : Rgb
red = (255, 0, 0)

abbrev frame : DoubleBuffer
frame = record {
  first = [];
  second = ("main", (1, replicate 52 red) ∷ (2, replicate 52 red) ∷ []) ∷ [];
  write_second = false;
}

frame_delivers_example :
    (w' : Worker (quad_controller sim)) × (lookup 1
        (transmit_color_changes (quad_controller sim) frame first_manager).1.worker_manager.workers
      ≡ some w')
    × Settles sim-Compliant w' (
        obey_all sim-Compliant
          (color_commands (or_default (lookup "main" (get_read_buffer frame))))
          main_quad.dev)
unfolding lookup
frame_delivers_example =
    frame_delivers sim-Compliant sim-Acknowledges frame first_manager
      (record { first = tt; second = (refl, tt) }) first_manager-IsValid "main" 1 main_worker
      main_quad main_assigned main_present refl main_idle

main-Answers : Answers {C = quad_controller sim} "main" 52 first_manager
main-Answers = record {
  worker_id = 1;
  worker = main_worker;
  settled = main_quad;
  assigned = main_assigned;
  present = main_present;
  running = refl;
  runs = main_idle;
  has_leds = refl;
}

calculated_frame_example :
    leds_at (fan 1) (
      get_read_buffer
        (calculate_fan_colors
          (controller_leds (quad_controller sim))
          fixed
          0
          store
          frame
          first_manager).1)
    ≡ painted 52
        (last_color (fan 1) (yields fixed 0 store))
        (leds_at (fan 1) (get_write_buffer frame))
calculated_frame_example =
    calculated_frame (fan 1) 52 fixed 0 store frame first_manager main-Answers

-- A controller is plugged in, all are initialized, and it is unplugged again.
abbrev second_quad : Controller sim
second_quad = record quad { name = "second" }

first_next : first_manager.worker_manager.next_worker_id + 1 < 4294967296
unfolding initialize
first_next = omega arith

abbrev both : ControllerManager (quad_controller sim)
both = attach (quad_controller sim) (fingerprint 2) second_quad first_manager

abbrev ready : ControllerManager (quad_controller sim)
ready = (batch_update (quad_controller sim) batch_init blocking both).1

abbrev one_left : ControllerManager (quad_controller sim)
one_left = (device_disconnected (quad_controller sim) (fingerprint 2) ready).1

history : Reach (quad_controller sim) first_manager one_left
history =
    next
      (next (next here (plugged (fingerprint 2) second_quad first_manager first_next))
        (batched batch_init blocking both))
      (unplugged (fingerprint 2) ready)

Reach-IsValid_example : IsValid one_left
Reach-IsValid_example = Reach-IsValid history first_manager-IsValid
