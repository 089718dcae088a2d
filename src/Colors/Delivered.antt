-- ===== src/Colors/Delivered.antt =====
-- From the buffers to the packets: what a frame of the fan colour service makes the devices do.
use tt_riingd.Common.{
  ℕ, List, [], ◌∷◌, String, Option, none, some, Bool, true, false, ◌≡◌, refl, ap, ◌∙◌, lookup,
  insert, string_eq, nat_eq, IsMap, insert-IsMap, if◌then◌else◌,
}
use tt_riingd.Protocol.{Rgb}
use tt_riingd.Floats.{Floats}
use tt_riingd.Hid.{HidDevice}
use tt_riingd.Mapping.{FanRef}
use tt_riingd.Effects.{EffectStore, next_rgb}
use tt_riingd.Quad.{Controller}
use tt_riingd.Quad.Compliant.{Compliant}
use tt_riingd.Quad.Batch.{Acknowledges, obey_all, color_commands}
use tt_riingd.Worker.{Worker}
use tt_riingd.Worker.Queue.{Runs}
use tt_riingd.Manager.{ControllerManager, quad_controller}
use tt_riingd.Manager.Validity.{IsValid}
use tt_riingd.Manager.Delivery.{Settles, packets_of, colors_delivered}
use tt_riingd.Monitoring.Tick.{or_default}
use tt_riingd.Colors.{
  Buffer, DoubleBuffer, get_read_buffer, get_write_buffer, write_buffer, paint_fan, paint_fans,
  paint_next, paint_effects, calculate_fan_colors, transmit_color_changes, has_channel, set_channel,
  add_leds, swap_buffers,
}

-- Neither buffer has two entries for one controller.
pub record AreMaps (b : DoubleBuffer) : Type 0 where
  pub first : IsMap b.first
  pub second : IsMap b.second

chosen-IsMap : (b : Bool) (x y : Buffer) → IsMap x → IsMap y → IsMap (if b then x else y)
chosen-IsMap true x y h k = h
chosen-IsMap false x y h k = k

swapped-AreMaps :
    (first second new : Buffer) (w : Bool)
    → IsMap first
    → IsMap second
    → IsMap new
    → AreMaps (
        swap_buffers
          (write_buffer new (record { first = first; second = second; write_second = w })))
swapped-AreMaps first second new true h k n = record { first = h; second = n }
swapped-AreMaps first second new false h k n = record { first = n; second = k }

module _ {S : Type 0} (leds : String → S → Option ℕ × S) where
  if-IsMap : (t : Bool) (x y : Buffer × S) → IsMap x.0 → IsMap y.0 → IsMap (if t then x else y).0
  if-IsMap true x y h k = h
  if-IsMap false x y h k = k

  paint_fan-IsMap :
      (rgb : Rgb) (fan : FanRef) (b : Buffer) (s : S)
      → IsMap b
      → IsMap (paint_fan leds rgb fan (b, s)).0
  unfolding paint_fan
  paint_fan-IsMap rgb fan b s h =
      let id = fan.controller_id in
      let buf = or_default (lookup id b) in
      let (led, s') = leds id s in
      if-IsMap (has_channel fan.channel buf) (insert id (set_channel fan.channel rgb buf) b, s)
        (insert id (add_leds led fan rgb buf) b, s')
        (insert-IsMap id (set_channel fan.channel rgb buf) b h)
        (insert-IsMap id (add_leds led fan rgb buf) b h)

  paint_fans-IsMap :
      (rgb : Rgb) (fans : List FanRef) (p : Buffer × S)
      → IsMap p.0
      → IsMap (paint_fans leds rgb fans p).0
  unfolding paint_fans
  paint_fans-IsMap rgb [] p h = h
  paint_fans-IsMap rgb (fan ∷ fans) (b, s) h =
      paint_fans-IsMap rgb fans (paint_fan leds rgb fan (b, s)) (paint_fan-IsMap rgb fan b s h)

  paint_next-IsMap :
      (o : Option Rgb) (fans : List FanRef) (p : Buffer × S)
      → IsMap p.0
      → IsMap (paint_next leds o fans p).0
  paint_next-IsMap none fans p h = h
  paint_next-IsMap (some rgb) fans p h = paint_fans-IsMap rgb fans p h

  module _ (R : Floats) where
    paint_effects-IsMap :
        (now : ℕ) (store : EffectStore R) (p : Buffer × S)
        → IsMap p.0
        → IsMap (paint_effects leds R now store p).1
    unfolding paint_effects
    paint_effects-IsMap now [] p h = h
    paint_effects-IsMap now ((id, e) ∷ store) p h =
        let (rgb, runner') = next_rgb R now e.runner in
        paint_effects-IsMap now store (paint_next leds rgb e.targets p)
          (paint_next-IsMap rgb e.targets p h)

    -- Calculating a frame keeps one entry for a controller in each buffer.
    pub calculate_fan_colors-AreMaps :
        (now : ℕ) (runners : EffectStore R) (buffer : DoubleBuffer) (s : S)
        → AreMaps buffer
        → AreMaps (calculate_fan_colors leds R now runners buffer s).1
    unfolding calculate_fan_colors
    calculate_fan_colors-AreMaps now runners buffer s v =
        let write = get_write_buffer buffer in
        swapped-AreMaps buffer.first buffer.second (paint_effects leds R now runners (write, s)).1
          buffer.write_second v.first v.second
          (paint_effects-IsMap now runners (write, s)
            (chosen-IsMap buffer.write_second buffer.second buffer.first v.second v.first))

-- A controller without an entry gets no packet.
packets_of-colors :
    {D : HidDevice} (c : Compliant D) (o : Option (List (ℕ × List Rgb)))
    → packets_of c color_commands o ≡ color_commands (or_default o)
packets_of-colors c none = refl
packets_of-colors c (some batch) = refl

-- For a device that obeys the protocol and acknowledges every command that sets a speed or colours,
-- a valid manager, and buffers with one entry for each controller: transmitting a frame brings it
-- to the hardware. Once a running worker has done what waits for it, the device of its controller
-- has obeyed, behind that, one packet for each channel that the buffer has for the controller, up
-- to the first that no packet can hold, and no others.
pub frame_delivers :
    {D : HidDevice} (c : Compliant D)
    → Acknowledges c
    → (buffer : DoubleBuffer) (m : ControllerManager (quad_controller D)) → AreMaps buffer
    → IsValid m
    → (id : String) (worker : ℕ) (w : Worker (quad_controller D)) (q : Controller D)
    → lookup id m.controller_id2worker_id ≡ some (some worker)
    → lookup worker m.worker_manager.workers ≡ some w
    → w.running ≡ true
    → Runs (quad_controller D) w.queue w.controller q
    → (w' : Worker (quad_controller D)) × (lookup worker
          (transmit_color_changes (quad_controller D) buffer m).1.worker_manager.workers
        ≡ some w')
      × Settles c w'
          (obey_all c (color_commands (or_default (lookup id (get_read_buffer buffer)))) q.dev)
unfolding transmit_color_changes
frame_delivers c a buffer m maps v id worker w q assigned here live runs =
    let (w', found, (q', settled, reached)) =
      colors_delivered c a m v id worker w q assigned here live runs (get_read_buffer buffer)
        (chosen-IsMap buffer.write_second buffer.first buffer.second maps.first maps.second) in
    (
      w',
      found,
      (
        q',
        settled,
        reached
            ∙ ap (λ cmds. obey_all c cmds q.dev)
                (packets_of-colors c (lookup id (get_read_buffer buffer))),
      ),
    )
