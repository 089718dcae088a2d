-- ===== src/Tests/Watching.antt =====
-- The configuration watcher and the udev watcher at work.
use tt_riingd.Common.{
  ℕ, ◌≡◌, refl, ap, ◌>>=◌, List, [], ◌∷◌, ◌++◌, map, String, Option, none, some, true, false, ok,
  All, ◌==◌, string_eq, arith,
}
use tt_riingd.Config.Changes.{analyze_changes}
use tt_riingd.Config.Load.{analyze_config_changes}
use tt_riingd.Event.{config_change_detected, device_connected}
use tt_riingd.Watcher.{ConfigFile, Input, watching, fs_event, fs_error, tick, run}
use tt_riingd.Watcher.Debounce.{change_published}
use tt_riingd.Udev.{
  EventType, Device, parse_id, trim_start, from_str_radix, Device, usb_ids, hex_value, from_digits,
  monitor, publish, add, remove,
}
use tt_riingd.Udev.Ids.{hex_id, parse_id-hex_id}
use tt_riingd.Udev.Published.{published, IsHotplug, arrival_published, monitored-AreHotplug}
use tt_riingd.Registry.{is_supported_hardware}
use tt_riingd.Tests.Configs.{parsed, loaded, file_loads}
use tt_riingd.Tests.Registries.{api}

abbrev config_file : ConfigFile ℕ
config_file = record {
  Path' = String;
  same_path = λ a b. a == b;
  file_name = λ p. some p;
  config_path = "config.yml";
  api = api;
  from_str = parsed;
}

-- The file as it stands was loaded before.
unchanged : analyze_config_changes api parsed (ok "") loaded ≡ ok (analyze_changes loaded loaded)
unfolding analyze_config_changes
unchanged = ap (λ r. r >>= λ config. ok (analyze_changes loaded config)) file_loads

abbrev burst : List (Input config_file)
burst = fs_error ∷ fs_event ("other.yml" ∷ []) true false ∷ []

change_published_example :
    run config_file
      (fs_event ("config.yml" ∷ []) true false ∷ burst ++ tick true (ok "") loaded ∷ [])
      (watching false)
    ≡ (watching false, config_change_detected (analyze_changes loaded loaded) ∷ [])
change_published_example =
    change_published config_file ("config.yml" ∷ []) true false false burst (ok "") loaded
      (analyze_changes loaded loaded) refl (tt, (tt, tt)) unchanged

parse_id-hex_id_example :
    (parse_id (hex_id 0x264A) ≡ some 0x264A)
    × (parse_id (b'0' ∷ b'x' ∷ hex_id 0x264A) ≡ some 0x264A)
parse_id-hex_id_example = parse_id-hex_id 0x264A (omega arith)

-- An overflow, no digit, and a prefix that is doubled.
odd_ids :
    (parse_id (b'1' ∷ b'0' ∷ b'0' ∷ b'0' ∷ b'0' ∷ []) ≡ none)
    × (parse_id [] ≡ none)
    × (parse_id (b'0' ∷ b'x' ∷ b'0' ∷ b'x' ∷ b'F' ∷ []) ≡ some 15)
unfolding parse_id trim_start from_str_radix from_digits hex_value
odd_ids = (refl, refl, refl)

-- Attributes are lists of code points.
abbrev pub to_str : List ℕ → Option (List ℕ)
to_str s = some s

abbrev pub lossy : List ℕ → String
lossy s = "serial"

-- A hidraw device without ids, whose parent has them.
abbrev pub device : Device to_str lossy
device =
    record {
      id_vendor = none;
      id_vendor_id = none;
      id_product = none;
      id_model_id = none;
      id_serial_short = none;
      serial = none;
    }
    ∷ record {
      id_vendor = some (hex_id 0x264A);
      id_vendor_id = none;
      id_product = some (hex_id 0x232B);
      id_model_id = none;
      id_serial_short = none;
      serial = none;
    }
    ∷ []

has_ids : usb_ids to_str lossy device ≡ some (0x264A, 0x232B, none)
unfolding usb_ids parse_id trim_start from_str_radix from_digits hex_value
has_ids = refl

is_supported : is_supported_hardware 0x264A 0x232B ≡ true
unfolding is_supported_hardware
is_supported = refl

arrival_published_example :
    published to_str lossy ℕ
      (map (λ e. some e) ((remove, device) ∷ []) ++ some (add, device) ∷ none ∷ [])
    ≡ published to_str lossy ℕ (map (λ e. some e) ((remove, device) ∷ []))
      ++ device_connected 0x264A 0x232B none ∷ published to_str lossy ℕ (none ∷ [])
arrival_published_example =
    arrival_published to_str lossy ℕ ((remove, device) ∷ []) device (none ∷ []) 0x264A 0x232B none
      has_ids is_supported

abbrev reported : List (Option (EventType × Device to_str lossy))
reported = some (add, device) ∷ none ∷ []

monitored-AreHotplug_example :
    All (IsHotplug to_str lossy reported {F = ℕ}) (publish (monitor to_str lossy reported).0)
monitored-AreHotplug_example = monitored-AreHotplug to_str lossy reported ℕ
