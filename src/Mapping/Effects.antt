-- ===== src/Mapping/Effects.antt =====
-- The fans of an effect.
use tt_riingd.Common.{
  ◌≡◌, refl, ◌∙◌, List, [], ◌∷◌, String, Bool, ◌&&◌, ◌||◌, any, arith, ◌==◌, nat_eq, string_eq,
  Dict, lookup,
}
use tt_riingd.Config.{EffectMappingCfg}
use tt_riingd.Mapping.{
  FanRef, fan_of, fan_eq, contains, add_to, tagged, effect_pairs, load_effects, build_color_mapping,
}
use tt_riingd.Mapping.Sensors.{
  members, members-add_to, contains-add, paired, paired-append, paired-tagged, or_false,
}

-- The mapping names the fan as a target of the effect.
abbrev pub colors : List EffectMappingCfg → String → FanRef → Bool
colors cfg effect fan = any (λ m. m.effect == effect && any (λ t. fan_of t == fan) m.targets) cfg

paired-effect_pairs :
    (effect : String) (fan : FanRef) (cfg : List EffectMappingCfg)
    → paired effect fan (effect_pairs cfg) ≡ colors cfg effect fan
paired-effect_pairs effect fan [] = refl
paired-effect_pairs effect fan (m ∷ cfg) = rw (
  paired-append effect fan (tagged m.effect m.targets) (effect_pairs cfg),
  paired-tagged effect m.effect fan m.targets,
  paired-effect_pairs effect fan cfg,
)

contains-load_effects :
    (m : Dict String (List FanRef)) (pairs : List (String × FanRef)) (effect : String)
    (fan : FanRef)
    → contains fan (members effect (load_effects m pairs))
      ≡ (paired effect fan pairs || contains fan (members effect m))
unfolding load_effects
contains-load_effects m [] effect fan = refl
contains-load_effects m ((name, g) ∷ rest) effect fan = ground (
  arith,
  contains-load_effects (add_to name g m) rest effect fan,
  members-add_to name effect g m,
  contains-add g fan (members effect m),
)

-- The fans that the loaded mapping gives for an effect are just the targets of the effect's entries.
pub contains-build_color_mapping :
    (cfg : List EffectMappingCfg) (effect : String) (fan : FanRef)
    → contains fan (members effect (build_color_mapping cfg)) ≡ colors cfg effect fan
unfolding build_color_mapping lookup
contains-build_color_mapping cfg effect fan =
    contains-load_effects [] (effect_pairs cfg) effect fan
    ∙ or_false (paired effect fan (effect_pairs cfg))
    ∙ paired-effect_pairs effect fan cfg
