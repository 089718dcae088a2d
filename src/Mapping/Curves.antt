-- ===== src/Mapping/Curves.antt =====
-- Which name a fan ends up under when the entries of a configuration are inserted in their order.
use tt_riingd.Common.{
  or_else, or_else-none, List, [], ◌∷◌, ◌++◌, String, Option, none, some, Bool, true, ◌≡◌, refl,
  sym, ap, ◌∙◌, ◌≢◌, if◌then◌else◌, any, arith, ◌==◌, Dict, lookup, insert, lookup-insert,
}
use text.Mathlib.TextEquality.{eq_iff}
use tt_riingd.Config.{MappingCfg, CurveMappingCfg, FanTarget}
use tt_riingd.Mapping.{
  FanRef, fan_eq, fan_of, tagged, Mapping, no_mapping, link, load_pairs, load_mappings,
  sensor_pairs, curve_pairs, load_curves, load_curve_mappings, get_curve_for_fan, contains,
  fans_for_sensor,
}
use tt_riingd.Mapping.Sensors.{drives, contains-fans_for_sensor}

abbrev targets_fan : List FanTarget → FanRef → Bool
targets_fan targets fan = any (λ t. fan_of t == fan) targets

-- The name of the last entry that names the fan.
abbrev pub last_sensor : List MappingCfg → FanRef → Option String
last_sensor [] fan = none
last_sensor (m ∷ cfg) fan =
    or_else (last_sensor cfg fan) (if targets_fan m.targets fan then some m.sensor else none)

abbrev pub last_curve : List CurveMappingCfg → FanRef → Option String
last_curve [] fan = none
last_curve (m ∷ cfg) fan =
    or_else (last_curve cfg fan) (if targets_fan m.targets fan then some m.curve else none)

abbrev last_pair : List (String × FanRef) → FanRef → Option String
last_pair [] fan = none
last_pair ((name, g) ∷ rest) fan =
    or_else (last_pair rest fan) (if g == fan then some name else none)

last_pair-append :
    (xs ys : List (String × FanRef)) (fan : FanRef)
    → last_pair (xs ++ ys) fan ≡ or_else (last_pair ys fan) (last_pair xs fan)
last_pair-append [] ys fan = ground arith
last_pair-append ((name, g) ∷ xs) ys fan = ground (arith, last_pair-append xs ys fan)

last_pair-tagged :
    (name : String) (targets : List FanTarget) (fan : FanRef)
    → last_pair (tagged name targets) fan ≡ (if targets_fan targets fan then some name else none)
last_pair-tagged name [] fan = refl
last_pair-tagged name (t ∷ targets) fan = ground (arith, last_pair-tagged name targets fan)

last_pair-sensor_pairs :
    (cfg : List MappingCfg) (fan : FanRef) → last_pair (sensor_pairs cfg) fan ≡ last_sensor cfg fan
last_pair-sensor_pairs [] fan = refl
last_pair-sensor_pairs (m ∷ cfg) fan = rw (
  last_pair-append (tagged m.sensor m.targets) (sensor_pairs cfg) fan,
  last_pair-tagged m.sensor m.targets fan,
  last_pair-sensor_pairs cfg fan,
)

last_pair-curve_pairs :
    (cfg : List CurveMappingCfg) (fan : FanRef)
    → last_pair (curve_pairs cfg) fan ≡ last_curve cfg fan
last_pair-curve_pairs [] fan = refl
last_pair-curve_pairs (m ∷ cfg) fan = rw (
  last_pair-append (tagged m.curve m.targets) (curve_pairs cfg) fan,
  last_pair-tagged m.curve m.targets fan,
  last_pair-curve_pairs cfg fan,
)

lookup-load_curves :
    (m : Dict FanRef String) (pairs : List (String × FanRef)) (fan : FanRef)
    → lookup fan (load_curves m pairs) ≡ or_else (last_pair pairs fan) (lookup fan m)
unfolding load_curves
lookup-load_curves m [] fan = refl
lookup-load_curves m ((name, g) ∷ rest) fan =
    ground (arith, lookup-load_curves (insert g name m) rest fan, lookup-insert g fan name m)

-- The forward direction of a sensor mapping is filled as a curve mapping is.
fans2sensor-load_pairs :
    (m : Mapping) (pairs : List (String × FanRef))
    → (load_pairs m pairs).fans2sensor ≡ load_curves m.fans2sensor pairs
unfolding load_pairs load_curves
fans2sensor-load_pairs m [] = refl
fans2sensor-load_pairs m ((name, g) ∷ rest) = fans2sensor-load_pairs (link m name g) rest

-- A fan follows the curve of the last entry that names it, and none if no entry does.
pub get_curve_for_fan-last :
    (cfg : List CurveMappingCfg) (fan : FanRef)
    → get_curve_for_fan (load_curve_mappings cfg) fan ≡ last_curve cfg fan
unfolding get_curve_for_fan load_curve_mappings lookup
get_curve_for_fan-last cfg fan =
    lookup-load_curves [] (curve_pairs cfg) fan
    ∙ or_else-none (last_pair (curve_pairs cfg) fan)
    ∙ last_pair-curve_pairs cfg fan

-- The sensor of a fan is that of the last entry that names it.
pub fans2sensor-last :
    (cfg : List MappingCfg) (fan : FanRef)
    → lookup fan (load_mappings cfg).fans2sensor ≡ last_sensor cfg fan
unfolding load_mappings lookup
fans2sensor-last cfg fan =
    ap (lookup fan) (fans2sensor-load_pairs no_mapping (sensor_pairs cfg))
    ∙ lookup-load_curves [] (sensor_pairs cfg) fan
    ∙ or_else-none (last_pair (sensor_pairs cfg) fan)
    ∙ last_pair-sensor_pairs cfg fan

last_sensor-drives :
    (cfg : List MappingCfg) (sensor : String) (fan : FanRef)
    → last_sensor cfg fan ≡ some sensor
    → drives cfg sensor fan ≡ true
last_sensor-drives [] sensor fan h = cc
last_sensor-drives (m ∷ cfg) sensor fan h =
    ground (arith, last_sensor-drives cfg sensor fan, eq_iff m.sensor sensor)

-- The sensor that the mapping gives for a fan has that fan among its own.
pub fans2sensor_sound :
    (cfg : List MappingCfg) (sensor : String) (fan : FanRef)
    → lookup fan (load_mappings cfg).fans2sensor ≡ some sensor
    → contains fan (fans_for_sensor (load_mappings cfg) sensor) ≡ true
fans2sensor_sound cfg sensor fan h =
    contains-fans_for_sensor cfg sensor fan
    ∙ last_sensor-drives cfg sensor fan (sym (fans2sensor-last cfg fan) ∙ h)

-- The other way fails: a fan that two sensors name stays among the fans of both, while the mapping
-- gives it the sensor of the last entry only.
pub fans2sensor_one_of_two :
    (cfg : List MappingCfg) (first second : String) (fan : FanRef)
    → drives cfg first fan ≡ true
    → last_sensor cfg fan ≡ some second
    → first ≢ second
    → (contains fan (fans_for_sensor (load_mappings cfg) first) ≡ true)
      × (lookup fan (load_mappings cfg).fans2sensor ≢ some first)
fans2sensor_one_of_two cfg first second fan h last ne =
    (contains-fans_for_sensor cfg first fan ∙ h, λ e. ne (cc (fans2sensor-last cfg fan)))
