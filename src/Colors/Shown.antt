-- ===== src/Colors/Shown.antt =====
-- What a frame shows of a fan whose controller has a worker that runs.
use tt_riingd.Common.{
  ℕ, ◌≡◌, refl, ap, ◌∙◌, String, Option, none, some, [], true, ok, inl, inr, Bool-cases, lookup,
  lookup-insert, string_eq, nat_eq, ◌==◌, ==_refl, arith,
}
use tt_riingd.Floats.{Floats}
use tt_riingd.Mapping.{FanRef}
use tt_riingd.Effects.{EffectStore}
use tt_riingd.Worker.{FanController, Worker, led_count, leds, handle, request, call}
use tt_riingd.Worker.Queue.{Runs, idle, call-eq}
use tt_riingd.Worker.Pool.{request_other, request-found}
use tt_riingd.Manager.{ControllerManager, manager_led_count, count_leds, leds_of}
use tt_riingd.Colors.{
  DoubleBuffer, get_read_buffer, get_write_buffer, calculate_fan_colors, controller_leds,
  led_answer,
}
use tt_riingd.Colors.Frames.{frame_lem}
use tt_riingd.Colors.Leds.{leds_at, painted, last_color, yields}

-- The id has a worker that runs, and once what waits for it is done its controller has n LEDs.
pub record Answers {C : FanController} (id : String) (n : ℕ) (m : ControllerManager C)
    : Type 0 where
  pub worker_id : ℕ
  pub worker : Worker C
  pub settled : C.State
  pub assigned : lookup id m.controller_id2worker_id ≡ some (some worker_id)
  pub present : lookup worker_id m.worker_manager.workers ≡ some worker
  pub running : worker.running ≡ true
  pub runs : Runs C worker.queue worker.controller settled
  pub has_leds : C.led_count settled ≡ n

module _ {C : FanController} where
  asked-eq :
      (w : Worker C) (t : C.State)
      → w.running ≡ true
      → Runs C w.queue w.controller t
      → call C led_count w
        ≡ (ok (leds (C.led_count t)), record { controller = t; queue = []; running = true })
  unfolding handle
  asked-eq w t live runs = call-eq C led_count w t live runs

  known :
      (id : String) (n : ℕ) (m : ControllerManager C)
      → Answers id n m
      → (controller_leds C id m).0 ≡ some n
  unfolding manager_led_count
  known id n m h =
      ap (λ o. led_answer C (count_leds C o m).0) h.assigned
      ∙ ap (λ r. led_answer C (leds_of C r.0))
          (request-found h.worker_id led_count m.worker_manager h.worker h.present)
      ∙ ap (λ r. led_answer C (leds_of C r.0)) (asked-eq h.worker h.settled h.running h.runs)
      ∙ ap some h.has_leds

  kept_found :
      (o : Option (Option ℕ)) (id : String) (n : ℕ) (m : ControllerManager C)
      → Answers id n m
      → Answers id n (count_leds C o m).1
  kept_found none id n m h = h
  kept_found (some none) id n m h = h
  kept_found (some (some k)) id n m h = elim (Bool-cases (k == h.worker_id)) [
    | inl e ↦
        let same : k ≡ h.worker_id = ground arith in
        let wm = m.worker_manager in
        record {
          worker_id = h.worker_id;
          worker = record { controller = h.settled; queue = []; running = true };
          settled = h.settled;
          assigned = h.assigned;
          present =
              ap (λ j. lookup h.worker_id (request C j led_count wm).1.workers) same
              ∙ ap (λ r. lookup h.worker_id r.1.workers)
                  (request-found h.worker_id led_count wm h.worker h.present)
              ∙ lookup-insert h.worker_id h.worker_id (call C led_count h.worker).1 wm.workers
              ∙ rw (==_refl h.worker_id)
                  (ap (λ r. some r.1) (asked-eq h.worker h.settled h.running h.runs));
          running = refl;
          runs = idle;
          has_leds = h.has_leds;
        }
    | inr e ↦ record {
      worker_id = h.worker_id;
      worker = h.worker;
      settled = h.settled;
      assigned = h.assigned;
      present =
          request_other k h.worker_id led_count m.worker_manager (λ e'. absurd (ground arith))
          ∙ h.present;
      running = h.running;
      runs = h.runs;
      has_leds = h.has_leds;
    }
  ]

  -- The frame that `calculate_fan_colors` leaves to be read shows a fan whose controller has a worker that
  -- runs, and n LEDs once what waits for the worker is done, in the colour of the last effect, in the
  -- order of the store, with the fan among its targets: all LEDs. A fan that no effect has is shown as
  -- in the buffer that was written before.
  pub calculated_frame :
      (fan : FanRef) (n : ℕ) (R : Floats) (now : ℕ) (runners : EffectStore R)
      (buffer : DoubleBuffer) (m : ControllerManager C)
      → Answers fan.controller_id n m
      → leds_at fan
          (get_read_buffer (calculate_fan_colors (controller_leds C) R now runners buffer m).1)
        ≡ painted n (last_color fan (yields R now runners)) (leds_at fan (get_write_buffer buffer))
  unfolding manager_led_count
  calculated_frame fan n R now runners buffer m h =
      frame_lem (controller_leds C) fan n (Answers fan.controller_id n) (known fan.controller_id n)
        (λ id m h. kept_found (lookup id m.controller_id2worker_id) fan.controller_id n m h) R now
        runners buffer m h
