-- ===== src/Mapping/Sensors.antt =====
-- The two directions of the sensor mapping, against the configuration.
use tt_riingd.Common.{
  List, [], ◌∷◌, ◌++◌, String, none, some, Bool, true, false, ◌&&◌, ◌||◌, ◌≡◌, refl, ◌∙◌, inl, inr,
  if◌then◌else◌, any, arith, Eq, ◌==◌, string_eq, Dict, lookup, lookup-insert, Bool-cases, nat_eq,
}
use mathlib.Core.Path.{subst}
use text.Mathlib.TextEquality.{eq_iff}
use tt_riingd.Config.{MappingCfg, FanTarget}
use tt_riingd.Mapping.{
  FanRef, fan_eq, contains, add, add_to, Mapping, no_mapping, link, load_pairs, load_mappings,
  sensor_pairs, tagged, fan_of, fans_for_sensor,
}

module _ {ℓ} {A : Type ℓ} ⦃e : Eq A⦄ where
  -- A set holds what was put into it, and what it held.
  pub contains-add : (a b : A) (xs : List A) → contains b (add a xs) ≡ (a == b || contains b xs)
  unfolding add
  contains-add a b xs = elim (Bool-cases (contains a xs)) [
    | inl old ↦ elim (Bool-cases (a == b)) [
      | inl same ↦ rw (old, same) (subst (λ c. contains c xs ≡ true) ((e.beq_iff a b).0 same) old)
      | inr other ↦ rw (old, other)
    ]
    | inr new ↦ rw new
  ]

pub or_false : (b : Bool) → (b || false) ≡ b
or_false true = refl
or_false false = refl

-- The set under a name, empty if there is none.
abbrev pub members : String → Dict String (List FanRef) → List FanRef
members k m = elim (lookup k m) [ none ↦ [] | some fans ↦ fans ]

pub members-add_to :
    (k j : String) (fan : FanRef) (m : Dict String (List FanRef))
    → members j (add_to k fan m) ≡ (if k == j then add fan (members j m) else members j m)
unfolding add_to
members-add_to k j fan m = ground (
  arith,
  eq_iff k j,
  lookup-insert k j (add fan []) m,
  lookup-insert k j (add fan (members k m)) m,
)

-- The mapping names the fan as a target of the sensor.
abbrev pub drives : List MappingCfg → String → FanRef → Bool
drives cfg sensor fan = any (λ m. m.sensor == sensor && any (λ t. fan_of t == fan) m.targets) cfg

abbrev pub paired : String → FanRef → List (String × FanRef) → Bool
paired key fan = any (λ p. p.0 == key && p.1 == fan)

pub paired-append :
    (key : String) (fan : FanRef) (xs ys : List (String × FanRef))
    → paired key fan (xs ++ ys) ≡ (paired key fan xs || paired key fan ys)
paired-append key fan [] ys = refl
paired-append key fan (x ∷ xs) ys = ground (arith, paired-append key fan xs ys)

pub paired-tagged :
    (key name : String) (fan : FanRef) (targets : List FanTarget)
    → paired key fan (tagged name targets) ≡ (name == key && any (λ t. fan_of t == fan) targets)
paired-tagged key name fan [] = ground arith
paired-tagged key name fan (t ∷ targets) = ground (arith, paired-tagged key name fan targets)

paired-sensor_pairs :
    (sensor : String) (fan : FanRef) (cfg : List MappingCfg)
    → paired sensor fan (sensor_pairs cfg) ≡ drives cfg sensor fan
paired-sensor_pairs sensor fan [] = refl
paired-sensor_pairs sensor fan (m ∷ cfg) = rw (
  paired-append sensor fan (tagged m.sensor m.targets) (sensor_pairs cfg),
  paired-tagged sensor m.sensor fan m.targets,
  paired-sensor_pairs sensor fan cfg,
)

contains-load_pairs :
    (m : Mapping) (pairs : List (String × FanRef)) (sensor : String) (fan : FanRef)
    → contains fan (members sensor (load_pairs m pairs).sensor2fans)
      ≡ (paired sensor fan pairs || contains fan (members sensor m.sensor2fans))
unfolding load_pairs
contains-load_pairs m [] sensor fan = refl
contains-load_pairs m ((name, g) ∷ rest) sensor fan = ground (
  arith,
  contains-load_pairs (link m name g) rest sensor fan,
  members-add_to name sensor g m.sensor2fans,
  contains-add g fan (members sensor m.sensor2fans),
)

-- The fans that the loaded mapping gives for a sensor are just the targets of the sensor's entries.
pub contains-fans_for_sensor :
    (cfg : List MappingCfg) (sensor : String) (fan : FanRef)
    → contains fan (fans_for_sensor (load_mappings cfg) sensor) ≡ drives cfg sensor fan
unfolding fans_for_sensor load_mappings lookup
contains-fans_for_sensor cfg sensor fan =
    contains-load_pairs no_mapping (sensor_pairs cfg) sensor fan
    ∙ or_false (paired sensor fan (sensor_pairs cfg))
    ∙ paired-sensor_pairs sensor fan cfg

-- A set holds nothing twice.
abbrev pub IsSimple : List FanRef → Type 0
IsSimple [] = Unit {0}
IsSimple (f ∷ fans) = (contains f fans ≡ false) × IsSimple fans

add-IsSimple : (fan : FanRef) (fans : List FanRef) → IsSimple fans → IsSimple (add fan fans)
unfolding add
add-IsSimple fan fans h = elim (Bool-cases (contains fan fans)) [
  | inl e ↦ rw e h
  | inr e ↦ rw e (e, h)
]

load_pairs-IsSimple :
    (m : Mapping) (pairs : List (String × FanRef)) (sensor : String)
    → ((s : String) → IsSimple (members s m.sensor2fans))
    → IsSimple (members sensor (load_pairs m pairs).sensor2fans)
unfolding load_pairs
load_pairs-IsSimple m [] sensor h = h sensor
load_pairs-IsSimple m ((name, g) ∷ rest) sensor h =
    load_pairs-IsSimple (link m name g) rest sensor after
  where
    after : (s : String) → IsSimple (members s (add_to name g m.sensor2fans))
    after s = rw (members-add_to name s g m.sensor2fans) (elim (Bool-cases (name == s)) [
      | inl e ↦ rw e (add-IsSimple g (members s m.sensor2fans) (h s))
      | inr e ↦ rw e (h s)
    ])

-- No fan is listed twice for a sensor, however often the configuration names it.
pub fans_for_sensor-IsSimple :
    (cfg : List MappingCfg) (sensor : String)
    → IsSimple (fans_for_sensor (load_mappings cfg) sensor)
unfolding fans_for_sensor load_mappings lookup
fans_for_sensor-IsSimple cfg sensor =
    load_pairs-IsSimple no_mapping (sensor_pairs cfg) sensor (λ s. tt)
