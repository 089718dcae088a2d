-- ===== src/Mapping.antt =====
-- config/mappings.rs: which sensor drives which fans, and which curve a fan follows. A `DashMap` is
-- an association list and a `DashSet` a list without repetition; their order means nothing.
pub mod Sensors
pub mod Curves
pub mod Effects
use tt_riingd.Common.{
  ℕ, List, [], ◌∷◌, ◌++◌, map, String, Option, none, some, Bool, true, ◌&&◌, ◌≡◌, ◌↔◌,
  if◌then◌else◌, any, arith, Eq, ◌==◌, nat_eq, string_eq, Dict, lookup, insert,
}
use text.Mathlib.TextEquality.{eq_iff}
use tt_riingd.Config.{FanTarget, MappingCfg, CurveMappingCfg, EffectMappingCfg}

pub record FanRef : Type 0 where
  pub controller_id : String
  pub channel : ℕ

abbrev pub fan_beq : FanRef → FanRef → Bool
fan_beq f g = f.controller_id == g.controller_id && f.channel == g.channel

pub fan_beq_iff : (f g : FanRef) → (fan_beq f g ≡ true) ↔ (f ≡ g)
fan_beq_iff f g = ground (arith, eq_iff f.controller_id g.controller_id)

instance abbrev pub fan_eq : Eq FanRef
fan_eq = record { beq = fan_beq; beq_iff = fan_beq_iff }

-- The fan that a target names.
abbrev pub fan_of : FanTarget → FanRef
fan_of t = record { controller_id = t.controller_id; channel = t.fan_idx }

module _ {ℓ} {A : Type ℓ} ⦃e : Eq A⦄ where
  abbrev pub contains : A → List A → Bool
  contains a = any (λ x. x == a)

  -- `DashSet::insert`.
  unfoldable pub add : A → List A → List A
  add a xs = if contains a xs then xs else a ∷ xs

-- `entry(key).or_default().insert(fan)`.
unfoldable pub add_to : String → FanRef → Dict String (List FanRef) → Dict String (List FanRef)
unfolding add lookup insert
add_to k fan m = elim (lookup k m) [
  | none ↦ insert k (add fan []) m
  | some fans ↦ insert k (add fan fans) m
]

pub record Mapping : Type 0 where
  pub fans2sensor : Dict FanRef String
  pub sensor2fans : Dict String (List FanRef)

-- The `flat_map` of the loaders: each target with the name that it stands under.
abbrev pub tagged : String → List FanTarget → List (String × FanRef)
tagged key [] = []
tagged key (t ∷ targets) = (key, fan_of t) ∷ tagged key targets

abbrev pub sensor_pairs : List MappingCfg → List (String × FanRef)
sensor_pairs [] = []
sensor_pairs (m ∷ cfg) = tagged m.sensor m.targets ++ sensor_pairs cfg

abbrev pub curve_pairs : List CurveMappingCfg → List (String × FanRef)
curve_pairs [] = []
curve_pairs (m ∷ cfg) = tagged m.curve m.targets ++ curve_pairs cfg

abbrev pub effect_pairs : List EffectMappingCfg → List (String × FanRef)
effect_pairs [] = []
effect_pairs (m ∷ cfg) = tagged m.effect m.targets ++ effect_pairs cfg

-- One step of the `fold` of `Mapping::load_mappings`.
abbrev pub link : Mapping → String → FanRef → Mapping
link m sensor fan = record {
  fans2sensor = insert fan sensor m.fans2sensor;
  sensor2fans = add_to sensor fan m.sensor2fans;
}

unfoldable pub load_pairs : Mapping → List (String × FanRef) → Mapping
load_pairs m [] = m
load_pairs m ((sensor, fan) ∷ rest) = load_pairs (link m sensor fan) rest

abbrev pub no_mapping : Mapping
no_mapping = record { fans2sensor = []; sensor2fans = [] }

unfoldable pub load_mappings : List MappingCfg → Mapping
unfolding load_pairs
load_mappings cfg = load_pairs no_mapping (sensor_pairs cfg)

unfoldable pub fans_for_sensor : Mapping → String → List FanRef
fans_for_sensor m sensor = elim (lookup sensor m.sensor2fans) [ none ↦ [] | some fans ↦ fans ]

-- `CurveMapping`: the fold of its loader, and its lookup.
unfoldable pub load_curves : Dict FanRef String → List (String × FanRef) → Dict FanRef String
load_curves m [] = m
load_curves m ((curve, fan) ∷ rest) = load_curves (insert fan curve m) rest

unfoldable pub load_curve_mappings : List CurveMappingCfg → Dict FanRef String
unfolding load_curves
load_curve_mappings cfg = load_curves [] (curve_pairs cfg)

unfoldable pub get_curve_for_fan : Dict FanRef String → FanRef → Option String
get_curve_for_fan m fan = lookup fan m

-- `EffectMapping::build_color_mapping`.
unfoldable pub load_effects :
    Dict String (List FanRef) → List (String × FanRef) → Dict String (List FanRef)
load_effects m [] = m
load_effects m ((effect, fan) ∷ rest) = load_effects (add_to effect fan m) rest

unfoldable pub build_color_mapping : List EffectMappingCfg → Dict String (List FanRef)
unfolding load_effects
build_color_mapping cfg = load_effects [] (effect_pairs cfg)
