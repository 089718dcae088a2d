-- ===== src/Colors.antt =====
-- providers/fan_color.rs: the colours that the effects give the fans, calculated in one buffer while
-- the other is sent.
pub mod Leds
pub mod Frames
pub mod Shown
pub mod Delivered
pub mod Reload
use tt_riingd.Common.{
  ℕ, List, [], ◌∷◌, ◌++◌, map, String, Option, none, some, Bool, true, false, not, Result, ok, err,
  panic, Dict, lookup, insert, any, replicate, if◌then◌else◌, ◌==◌, nat_eq, string_eq, unhandled,
}
use tt_riingd.Protocol.{Rgb}
use tt_riingd.Floats.{Floats}
use tt_riingd.Config.{Config}
use tt_riingd.Mapping.{FanRef}
use tt_riingd.Effects.{EffectInstance, EffectStore, next_rgb, build_effect_store}
use tt_riingd.Event.{
  Services, ServiceType, fan_color, RequestPayload, prepare_config_update, Response, success, Event,
  commit_config_update,
}
use tt_riingd.Monitoring.Tick.{or_default}
use tt_riingd.Worker.{FanController}
use tt_riingd.Manager.{
  ControllerManager, BatchResult, batch_update, batch_colors, blocking, manager_led_count,
}

abbrev pub ControllerColorBuffer : Type 0
ControllerColorBuffer = List (ℕ × List Rgb)

abbrev pub Buffer : Type 0
Buffer = Dict String ControllerColorBuffer

-- `write_index` is 0 or 1; `write_second` is whether it is 1.
pub record DoubleBuffer : Type 0 where
  pub first : Buffer
  pub second : Buffer
  pub write_second : Bool

abbrev pub new_buffers : DoubleBuffer
new_buffers = record { first = []; second = []; write_second = false }

abbrev pub get_write_buffer : DoubleBuffer → Buffer
get_write_buffer b = if b.write_second then b.second else b.first

abbrev pub get_read_buffer : DoubleBuffer → Buffer
get_read_buffer b = if b.write_second then b.first else b.second

-- What is written through the guard of `get_write_buffer`.
abbrev pub write_buffer : Buffer → DoubleBuffer → DoubleBuffer
write_buffer buf b = if b.write_second then record b { second = buf } else record b { first = buf }

abbrev pub swap_buffers : DoubleBuffer → DoubleBuffer
swap_buffers b = record b { write_second = not b.write_second }

abbrev pub has_channel : ℕ → ControllerColorBuffer → Bool
has_channel channel buf = any (λ e. e.0 == channel) buf

-- All LEDs of the first entry with the channel.
unfoldable pub set_channel : ℕ → Rgb → ControllerColorBuffer → ControllerColorBuffer
set_channel channel rgb [] = []
set_channel channel rgb ((c, leds) ∷ buf) =
    if c == channel
    then (c, map (λ led. rgb) leds) ∷ buf
    else (c, leds) ∷ set_channel channel rgb buf

abbrev pub black : Rgb
black = (0, 0, 0)

-- Behind `led_count`: a controller that is not found has no entry.
abbrev pub add_leds : Option ℕ → FanRef → Rgb → ControllerColorBuffer → ControllerColorBuffer
add_leds (some led) fan rgb buf =
    set_channel fan.channel rgb (buf ++ (fan.channel, replicate led black) ∷ [])
add_leds none fan rgb buf = buf

-- `S` is the state of the controllers, and `leds` their `led_count`, whose errors are `none`.
module _ {S : Type 0} (leds : String → S → Option ℕ × S) where
  -- The body of the loop over the targets of an effect.
  unfoldable pub paint_fan : Rgb → FanRef → Buffer × S → Buffer × S
  unfolding set_channel
  paint_fan rgb fan (b, s) =
      let buf = or_default (lookup fan.controller_id b) in
      let (led, s') = leds fan.controller_id s in
      if has_channel fan.channel buf
      then (insert fan.controller_id (set_channel fan.channel rgb buf) b, s)
      else (insert fan.controller_id (add_leds led fan rgb buf) b, s')

  unfoldable pub paint_fans : Rgb → List FanRef → Buffer × S → Buffer × S
  unfolding paint_fan
  paint_fans rgb [] p = p
  paint_fans rgb (fan ∷ fans) p = paint_fans rgb fans (paint_fan rgb fan p)

  abbrev pub paint_next : Option Rgb → List FanRef → Buffer × S → Buffer × S
  paint_next none fans p = p
  paint_next (some rgb) fans p = paint_fans rgb fans p

  module _ (R : Floats) where
    -- The loop over the effects, at one instant.
    unfoldable pub paint_effects : ℕ → EffectStore R → Buffer × S → EffectStore R × Buffer × S
    unfolding paint_fans next_rgb
    paint_effects now [] (b, s) = ([], b, s)
    paint_effects now ((id, e) ∷ store) p =
        let (rgb, runner') = next_rgb R now e.runner in
        let (store', b', s') = paint_effects now store (paint_next rgb e.targets p) in
        ((id, record e { runner = runner' }) ∷ store', b', s')

    unfoldable pub calculate_fan_colors :
        ℕ → EffectStore R → DoubleBuffer → S → EffectStore R × DoubleBuffer × S
    unfolding paint_effects
    calculate_fan_colors now runners buffer s =
        let (runners', buf, s') = paint_effects now runners (get_write_buffer buffer, s) in
        (runners', swap_buffers (write_buffer buf buffer), s')

module _ (C : FanController) where
  abbrev pub led_answer : Result ℕ → Option ℕ
  led_answer (ok led) = some led
  led_answer (err e) = none
  led_answer panic = none

  abbrev pub controller_leds : String → ControllerManager C → Option ℕ × ControllerManager C
  controller_leds id m = let (r, m') = manager_led_count C id m in (led_answer r, m')

  unfoldable pub transmit_color_changes :
      DoubleBuffer → ControllerManager C → BatchResult × ControllerManager C
  unfolding batch_update
  transmit_color_changes buffer m =
      batch_update C (batch_colors (get_read_buffer buffer)) blocking m

module _ (R : Floats) where
  -- The two `ArcSwap` cells; behind a commit both hold the same store, and `new_runners` is `none`.
  pub record FanColorServiceCache : Type 0 where
    pub runners : EffectStore R
    pub new_runners : Option (EffectStore R)

  abbrev pub new_fan_color : Config R.F → FanColorServiceCache
  new_fan_color config = record {
    runners = build_effect_store R config.effects config.effect_mappings;
    new_runners = some [];
  }

  abbrev pub rebuild_effects : Config R.F → FanColorServiceCache → FanColorServiceCache
  rebuild_effects config cache = record cache {
    new_runners = some (build_effect_store R config.effects config.effect_mappings);
  }

  unfoldable pub handle_event :
      Config R.F
      → RequestPayload R.F
      → FanColorServiceCache
      → Result (Response R.F) × FanColorServiceCache
  unfolding build_effect_store
  handle_event config (prepare_config_update id) cache = (ok success, rebuild_effects config cache)
  handle_event config _ cache = (err unhandled, cache)

  -- `runners.store(new_runners.load_full())`.
  abbrev pub commit_runners : Option (EffectStore R) → FanColorServiceCache → FanColorServiceCache
  commit_runners none cache = cache
  commit_runners (some store) cache = record { runners = store; new_runners = none }

  unfoldable pub handle_notify : Event R.F → FanColorServiceCache → FanColorServiceCache
  handle_notify (commit_config_update id) cache = commit_runners cache.new_runners cache
  handle_notify _ cache = cache

-- The fan colour service beside the other ones.
module _ (R : Floats) (others : Services R.F) where
  abbrev pub ask_one :
      Config R.F
      → ServiceType
      → RequestPayload R.F
      → FanColorServiceCache R × others.State
      → Option (Result (Response R.F)) × (FanColorServiceCache R × others.State)
  ask_one config fan_color payload (cache, rest) =
      let (answer, cache') = handle_event R config payload cache in (some answer, (cache', rest))
  ask_one config service payload (cache, rest) =
      let (answer, rest') = others.ask config service payload rest in (answer, (cache, rest'))

  abbrev pub handles : ServiceType → FanColorServiceCache R × others.State → Bool
  handles fan_color s = true
  handles service (cache, rest) = others.has_handler service rest

  abbrev pub with_fan_color : Services R.F
  with_fan_color = record {
    State = FanColorServiceCache R × others.State;
    has_handler = handles;
    ask = ask_one;
    notify = λ event s. (handle_notify R event s.0, others.notify event s.1);
  }
