-- ===== src/Tests/Frames.antt =====
-- Frames of colours, and a reload of both services.
use tt_riingd.Common.{
  ℕ, ◌≡◌, refl, [], ◌∷◌, String, Option, some, true, false, err, lookup, insert, string_eq,
  unhandled,
}
use tt_riingd.Protocol.{Rgb}
use tt_riingd.Config.{default_config}
use tt_riingd.Mapping.{FanRef}
use tt_riingd.Effects.{EffectStore, constant_stream, next_rgb}
use tt_riingd.Event.{Services}
use tt_riingd.Monitoring.{new_monitoring}
use tt_riingd.Colors.{
  DoubleBuffer, new_buffers, get_read_buffer, paint_fan, paint_fans, paint_effects,
  calculate_fan_colors, set_channel, new_fan_color,
}
use tt_riingd.Colors.Leds.{leds_at}
use tt_riingd.Colors.Reload.{AllServices}
use tt_riingd.Coordinator.{Coordinator}
use tt_riingd.Tests.Curves.{fixed}
use tt_riingd.Tests.Configs.{parsed}
use tt_riingd.Tests.Registries.{api}

abbrev fan : FanRef
fan = record { controller_id = "main"; channel = 1 }

abbrev two_leds : String → Unit {0} → Option ℕ × Unit {0}
two_leds id s = (some 2, tt)

abbrev red : Rgb
red = (255, 0, 0)

abbrev blue : Rgb
blue = (0, 0, 255)

-- Both effects have the fan; the later one is seen.
abbrev pub store : EffectStore fixed
store =
    ("first", record { runner = constant_stream red; targets = fan ∷ [] })
    ∷ ("second", record { runner = constant_stream blue; targets = fan ∷ [] })
    ∷ []

seen_blue :
    leds_at fan (get_read_buffer (calculate_fan_colors two_leds fixed 0 store new_buffers tt).1)
    ≡ some (blue ∷ blue ∷ [])
unfolding calculate_fan_colors paint_effects paint_fans paint_fan set_channel next_rgb lookup insert
seen_blue = refl

-- A fan that lost its effect keeps two colours, one in each buffer, which are shown in turn.
abbrev two_frames : DoubleBuffer
two_frames = record {
  first = ("main", (1, red ∷ red ∷ []) ∷ []) ∷ [];
  second = ("main", (1, blue ∷ blue ∷ []) ∷ []) ∷ [];
  write_second = false;
}

abbrev next_frame : DoubleBuffer → DoubleBuffer
next_frame b = (calculate_fan_colors two_leds fixed 0 [] b tt).1

alternates :
    (leds_at fan (get_read_buffer (next_frame two_frames)) ≡ some (red ∷ red ∷ []))
    × (leds_at fan (get_read_buffer (next_frame (next_frame two_frames))) ≡ some (blue ∷ blue ∷ []))
unfolding calculate_fan_colors paint_effects lookup
alternates = (refl, refl)

-- No broadcast service.
abbrev pub nobody : Services ℕ
nobody = record {
  State = Unit {0};
  has_handler = λ service s. false;
  ask = λ config service payload s. (some (err unhandled), s);
  notify = λ event s. s;
}

abbrev pub started : Coordinator api parsed (AllServices fixed nobody)
started = record {
  initialized = true;
  config = default_config;
  transaction_counter = 1;
  services = (new_monitoring default_config, (new_fan_color fixed default_config, tt));
}
