-- ===== src/Effects.antt =====
-- effects/effect_runner.rs, `EffectCfg::into_runner` of config/cfg.rs and `EffectStore` of
-- config/mappings.rs. A stream is its parameters with the instant of its first poll; instants and
-- durations are in nanoseconds.
use tt_riingd.Common.{
  ℕ, ◌*◌, ◌-◌, List, [], ◌∷◌, map, String, Option, none, some, Result, ok, err, panic, ◌>>=◌, Dict,
  insert, find, if◌then◌else◌, ltb, ◌==◌, string_eq, no_targets,
}
use tt_riingd.Protocol.{Rgb}
use tt_riingd.Floats.{Floats}
use tt_riingd.Config.{
  EffectCfg, constant_color, rainbow, breathing, fade, effect_id, EffectMappingCfg,
}
use tt_riingd.Mapping.{FanRef, fan_of}

module _ (R : Floats) where
  open R use {
    F, of_nat, half, fifth, tau, add, sub, mul, div, rem, abs, round, sin, clamp, to_u8, to_u32,
    as_secs,
  }

  pub data EffectRunner : Type 0 where
    constant_stream : (rgb : Rgb) → EffectRunner
    rainbow_stream : (start : Option ℕ) (period : ℕ) → EffectRunner
    breathe_stream : (start : Option ℕ) (rgb : Rgb) (min max : F) (period : ℕ) → EffectRunner

  abbrev pub channel_byte : F → ℕ
  channel_byte c = to_u8 (round (mul c (of_nat 255)))

  abbrev pub sector : ℕ → F → F → F × F × F
  sector h c x =
      if ltb h 60
      then (c, x, of_nat 0)
      else (if ltb h 120
          then (x, c, of_nat 0)
          else (if ltb h 180
              then (of_nat 0, c, x)
              else (if ltb h 240
                  then (of_nat 0, x, c)
                  else (if ltb h 300 then (x, of_nat 0, c) else (c, of_nat 0, x)))))

  unfoldable pub hsv_to_rgb : F → F → F → Rgb
  hsv_to_rgb hue s v =
      let h = rem hue (of_nat 360) in
      let c = mul v s in
      let x = mul c (sub (of_nat 1) (abs (sub (rem (div h (of_nat 60)) (of_nat 2)) (of_nat 1)))) in
      let (r1, g1, b1) = sector (to_u32 h) c x in
      let m = sub v c in (channel_byte (add r1 m), channel_byte (add g1 m), channel_byte (add b1 m))

  abbrev pub scale_byte : F → ℕ → ℕ
  scale_byte factor c = to_u8 (round (clamp (of_nat 0) (of_nat 255) (mul (of_nat c) factor)))

  unfoldable pub scale_rgb : Rgb → F → Rgb
  scale_rgb (r, g, b) factor = (scale_byte factor r, scale_byte factor g, scale_byte factor b)

  -- `start` is set at the first poll.
  abbrev pub started : Option ℕ → ℕ → ℕ
  started none now = now
  started (some start) now = start

  abbrev pub phase : ℕ → ℕ → F
  phase elapsed period = rem (div (as_secs elapsed) (as_secs period)) (of_nat 1)

  abbrev pub brightness : F → F → F → F
  brightness min max t = add min (mul (mul (sub max min) (add (sin (mul t tau)) (of_nat 1))) half)

  -- `next_rgb`: what the stream yields at an instant. No stream ends.
  unfoldable pub next_rgb : ℕ → EffectRunner → Option Rgb × EffectRunner
  unfolding hsv_to_rgb scale_rgb
  next_rgb now (constant_stream rgb) = (some rgb, constant_stream rgb)
  next_rgb now (rainbow_stream start period) =
      let start' = started start now in
      let hue = mul (phase (now - start') period) (of_nat 360) in
      (some (hsv_to_rgb hue (of_nat 1) (of_nat 1)), rainbow_stream (some start') period)
  next_rgb now (breathe_stream start rgb min max period) =
      let start' = started start now in
      let br = brightness min max (phase (now - start') period) in
      (some (scale_rgb rgb br), breathe_stream (some start') rgb min max period)

  abbrev pub from_secs : ℕ → ℕ
  from_secs seconds = seconds * 1000000000

  unfoldable pub into_runner : EffectCfg → Result EffectRunner
  into_runner (constant_color id rgb) = ok (constant_stream rgb)
  into_runner (rainbow id duration) = ok (rainbow_stream none (from_secs duration))
  into_runner (breathing id color duration) =
      ok (breathe_stream none color fifth (of_nat 1) (from_secs duration))
  into_runner (fade id color duration) =
      ok (breathe_stream none color (of_nat 0) (of_nat 1) (from_secs duration))

  pub record EffectInstance : Type 0 where
    pub runner : EffectRunner
    pub targets : List FanRef

  -- `EffectInstance::new`.
  abbrev pub with_targets : Option EffectMappingCfg → EffectRunner → Result EffectInstance
  with_targets (some mapping) runner =
      ok (record { runner = runner; targets = map fan_of mapping.targets })
  with_targets none runner = err no_targets

  unfoldable pub new_instance : EffectCfg → Option EffectMappingCfg → Result EffectInstance
  unfolding into_runner
  new_instance effect mapping = into_runner effect >>= with_targets mapping

  abbrev pub EffectStore : Type 0
  EffectStore = Dict String EffectInstance

  abbrev pub put_instance : String → Result EffectInstance → EffectStore → EffectStore
  put_instance id (ok instance') store = insert id instance' store
  put_instance id (err e) store = store
  put_instance id panic store = store

  -- One effect of the `filter_map` and the `fold`: the first mapping with its name counts.
  abbrev pub store_effect : EffectCfg → Option EffectMappingCfg → EffectStore → EffectStore
  store_effect e none store = store
  store_effect e (some mapping) store =
      put_instance (effect_id e) (new_instance e (some mapping)) store

  unfoldable pub store_effects : List EffectMappingCfg → List EffectCfg → EffectStore → EffectStore
  unfolding new_instance
  store_effects mappings [] store = store
  store_effects mappings (e ∷ effects) store =
      store_effects mappings effects
        (store_effect e (find (λ m. m.effect == effect_id e) mappings) store)

  unfoldable pub build_effect_store : List EffectCfg → List EffectMappingCfg → EffectStore
  unfolding store_effects
  build_effect_store effects mappings = store_effects mappings effects []
