-- ===== src/Registry/Cache.antt =====
-- The cache of configurations: what a device that comes back is built from.
use tt_riingd.Common.{
  or_else, List, [], ◌∷◌, Option, none, some, Bool, true, false, ◌≡◌, ◌≢◌, refl, ap, ◌∙◌, inl, inr,
  Result, ok, err, panic, default_failed, if◌then◌else◌, ◌==◌, ==_refl, Error, Dict, lookup, insert,
  lookup-insert, Bool-cases,
}
use tt_riingd.Hid.{HardwareFingerprint, fingerprint_eq, fingerprint_beq_iff}
use tt_riingd.Quad.{Controller}
use tt_riingd.Config.{ControllerCfg, riing_quad, FanCfg}
use tt_riingd.Registry.{
  HidApi, build_one_controller, fingerprint_of, cache_fingerprint, cache_built, cache_default,
  build_cached, build_controllers, build_controller_from_fingerprint, build_default_controller,
  create_fallback_config,
}

abbrev cfg_fans : ControllerCfg → List FanCfg
cfg_fans (riing_quad id usb fans) = fans

module _ (api : HidApi) where
  abbrev shows : Result HardwareFingerprint → HardwareFingerprint → Bool
  shows (ok g) f = g == f
  shows _ f = false

  -- The entry can be built, and the device that it opens has the fingerprint.
  abbrev builds_as : Result (Controller api.device) → HardwareFingerprint → Bool
  builds_as (ok c) f = shows (fingerprint_of api c) f
  builds_as _ f = false

  -- The last entry that opens the device with the fingerprint.
  abbrev pub last_built : List ControllerCfg → HardwareFingerprint → Option ControllerCfg
  last_built [] f = none
  last_built (cfg ∷ cfgs) f =
      or_else (last_built cfgs f)
        (if builds_as (build_one_controller api cfg) f then some cfg else none)

  lookup-cache_fingerprint :
      (r : Result HardwareFingerprint) (cfg : ControllerCfg)
      (cache : Dict HardwareFingerprint ControllerCfg) (f : HardwareFingerprint)
      → lookup f (cache_fingerprint api r cfg cache)
        ≡ (if shows r f then some cfg else lookup f cache)
  lookup-cache_fingerprint (ok g) cfg cache f = lookup-insert g f cfg cache
  lookup-cache_fingerprint (err x) cfg cache f = refl
  lookup-cache_fingerprint panic cfg cache f = refl

  lookup-cache_built :
      (r : Result (Controller api.device)) (cfg : ControllerCfg)
      (cache : Dict HardwareFingerprint ControllerCfg) (f : HardwareFingerprint)
      → lookup f (cache_built api r cfg cache)
        ≡ (if builds_as r f then some cfg else lookup f cache)
  lookup-cache_built (ok c) cfg cache f =
      lookup-cache_fingerprint (fingerprint_of api c) cfg cache f
  lookup-cache_built (err x) cfg cache f = refl
  lookup-cache_built panic cfg cache f = refl

  or_else_if :
      (o p : Option ControllerCfg) (b : Bool) (cfg : ControllerCfg)
      → or_else o (if b then some cfg else p) ≡ or_else (or_else o (if b then some cfg else none)) p
  or_else_if none p true cfg = refl
  or_else_if none p false cfg = refl
  or_else_if (some c) p b cfg = refl

  lookup-build_controllers :
      (cfgs : List ControllerCfg) (cache : Dict HardwareFingerprint ControllerCfg)
      (f : HardwareFingerprint)
      → lookup f (build_controllers api cfgs cache).1 ≡ or_else (last_built cfgs f) (lookup f cache)
  unfolding build_controllers
  lookup-build_controllers [] cache f = refl
  lookup-build_controllers (cfg ∷ cfgs) cache f =
      let created = build_one_controller api cfg in
      lookup-build_controllers cfgs (cache_built api created cfg cache) f
      ∙ ap (or_else (last_built cfgs f)) (lookup-cache_built created cfg cache f)
      ∙ or_else_if (last_built cfgs f) (lookup f cache) (builds_as created f) cfg

  -- A device that comes back after the start is built from the last entry of the configuration
  -- that opened a device with its fingerprint, and the cache stays as it was.
  pub reconnect_restores :
      (cfgs : List ControllerCfg) (f : HardwareFingerprint) (cfg : ControllerCfg)
      → last_built cfgs f ≡ some cfg
      → let cache = (build_controllers api cfgs []).1 in
        build_controller_from_fingerprint api f cache ≡ (build_one_controller api cfg, cache)
  unfolding build_controller_from_fingerprint
  reconnect_restores cfgs f cfg h =
      let cache = (build_controllers api cfgs []).1 in
      ap (λ o. build_cached api o f cache)
        (lookup-build_controllers cfgs [] f ∙ ap (λ o. or_else o (lookup f [])) h)

  pub build-cached :
      (cache : Dict HardwareFingerprint ControllerCfg) (f : HardwareFingerprint)
      (cfg : ControllerCfg)
      → lookup f cache ≡ some cfg
      → build_controller_from_fingerprint api f cache ≡ (build_one_controller api cfg, cache)
  unfolding build_controller_from_fingerprint
  build-cached cache f cfg h = ap (λ o. build_cached api o f cache) h

  build-unknown :
      (cache : Dict HardwareFingerprint ControllerCfg) (f : HardwareFingerprint)
      → lookup f cache ≡ none
      → build_controller_from_fingerprint api f cache
        ≡ cache_default api
            (build_one_controller api (create_fallback_config f))
            f
            (create_fallback_config f)
            cache
  unfolding build_controller_from_fingerprint build_default_controller
  build-unknown cache f h = ap (λ o. build_cached api o f cache) h

  pub lookup-insert_self :
      (f : HardwareFingerprint) (cfg : ControllerCfg)
      (cache : Dict HardwareFingerprint ControllerCfg)
      → lookup f (insert f cfg cache) ≡ some cfg
  lookup-insert_self f cfg cache = lookup-insert f f cfg cache ∙ rw (==_refl f)

  lookup-insert_ne :
      (f g : HardwareFingerprint) (cfg : ControllerCfg)
      (cache : Dict HardwareFingerprint ControllerCfg)
      → f ≢ g
      → lookup g (insert f cfg cache) ≡ lookup g cache
  lookup-insert_ne f g cfg cache ne = lookup-insert f g cfg cache ∙ elim (Bool-cases (f == g)) [
    | inl e ↦ absurd (ne ((fingerprint_beq_iff f g).0 e))
    | inr e ↦ rw e
  ]

  -- A device whose fingerprint is not in the cache, and that can be opened, gets a fallback
  -- configuration. The cache learns it, so that the device is built from it again when it comes
  -- back, and keeps what it had of all other devices.
  pub unknown_learned :
      (cache : Dict HardwareFingerprint ControllerCfg) (f : HardwareFingerprint)
      (c : Controller api.device)
      → lookup f cache ≡ none
      → build_one_controller api (create_fallback_config f) ≡ ok c
      → let learned = insert f (create_fallback_config f) cache in
        (build_controller_from_fingerprint api f cache ≡ (ok c, learned))
        × (build_controller_from_fingerprint api f learned ≡ (ok c, learned))
        × ((g : HardwareFingerprint) → f ≢ g → lookup g learned ≡ lookup g cache)
  unknown_learned cache f c h b =
      let cfg = create_fallback_config f in
      let learned = insert f cfg cache in
      (
        build-unknown cache f h ∙ ap (λ r. cache_default api r f cfg cache) b,
        build-cached learned f cfg (lookup-insert_self f cfg cache) ∙ ap (λ r. (r, learned)) b,
        λ g ne. lookup-insert_ne f g cfg cache ne,
      )

  -- If it cannot be opened, connecting it fails and the cache learns nothing.
  pub unknown_refused :
      (cache : Dict HardwareFingerprint ControllerCfg) (f : HardwareFingerprint) {e : Error}
      → lookup f cache ≡ none
      → build_one_controller api (create_fallback_config f) ≡ err e
      → build_controller_from_fingerprint api f cache ≡ (err default_failed, cache)
  unknown_refused cache f h b =
      build-unknown cache f h ∙ ap (λ r. cache_default api r f (create_fallback_config f) cache) b
