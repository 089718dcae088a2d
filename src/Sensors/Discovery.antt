-- ===== src/Sensors/Discovery.antt =====
-- Which sensors are found.
use tt_riingd.Common.{
  ℕ, zero, suc, ◌≤◌, ◌<◌, List, [], ◌∷◌, ◌++◌, String, Option, none, some, is_some, Bool, true, ok,
  ◌>>=◌, ltb, ◌==◌, string_eq, All, Bool-cases, ◌⊎◌, inl, inr, find, Has, here, there, ◌≡◌, refl,
  ap, sym, ◌∙◌, arith, All-append, find-append_last,
}
use mathlib.Core.Path.{subst}
use tt_riingd.Floats.{Floats}
use tt_riingd.Config.{SensorCfg, lm_sensors, nvidia}
use tt_riingd.Sensors.{
  Nvml, checked, device_name, Chip, Feature, SubFeature, feature_name, Sensor, lm_source,
  nvidia_sensor, dummy_source, key, lm_found, find_temperature, find_feature, is_named, find_input,
  lm_discover, create_sensor_for_gpu, if_created, nvidia_configs, discover_all, discover_configured,
  discover_counted, nvidia_discover, init_sensors, find_by_key,
}

find-Has :
    {A : Type 0} (p : A → Bool) (xs : List A) (x : A) → find p xs ≡ some x → Has x xs × (p x ≡ true)
find-Has p [] x h = absurd (cc h)
find-Has p (y ∷ xs) x h = elim (Bool-cases (p y)) [
  | inl e ↦
      let same : y ≡ x = ground arith in
      (subst (λ z. Has z (y ∷ xs)) same here, ap p (sym same) ∙ e)
  | inr e ↦
      let rest : find p xs ≡ some x = ground arith in
      let (has, holds) = find-Has p xs x rest in (there has, holds)
]

-- The sub-feature is a temperature input of a feature with that name, of a chip with that name.
abbrev pub IsInput : List Chip → String → String → ℕ → Type 0
IsInput chips chip feature subf =
    (c : Chip) × (f : Feature) × (s : SubFeature) × Has c chips
    × (c.name ≡ some chip)
    × Has f c.features
    × (feature_name f ≡ feature)
    × Has s f.sub_features
    × (s.is_temperature_input ≡ true)
    × (s.id ≡ subf)

-- A GPU that the library counts and names, under the id of an entry for it, or, if no entry names a GPU,
-- under its own key.
abbrev pub IsGpu : Nvml → (ℕ → String) → List SensorCfg → String → ℕ → String → Type 0
IsGpu nvml gpu_key cfg k index name =
    (handle : nvml.Handle) × (index < nvml.get_count.1)
    × (nvml.get_handle index ≡ (0, handle))
    × (nvml.get_name handle ≡ (0, name))
    × (Has (nvidia k index) cfg ⊎ ((nvidia_configs cfg ≡ []) × (k ≡ gpu_key index)))

abbrev IsFound : Option (List Chip) → List SensorCfg → String → ℕ → Type 0
IsFound none cfg k subf = ⊥
IsFound (some chips) cfg k subf =
    (chip : String) × (feature : String) × Has (lm_sensors k chip feature) cfg
    × IsInput chips chip feature subf

abbrev IsCounted : Option Nvml → (ℕ → String) → List SensorCfg → String → ℕ → String → Type 0
IsCounted none gpu_key cfg k index name = ⊥
IsCounted (some nvml) gpu_key cfg k index name = IsGpu nvml gpu_key cfg k index name

-- A sensor of lm-sensors stands in the configuration with its chip and feature, and one of NVML is such a
-- GPU. A dummy is not genuine.
abbrev pub IsGenuine :
    {F : Type 0}
    → Option (List Chip)
    → Option Nvml
    → (ℕ → String)
    → List SensorCfg
    → Sensor F
    → Type 0
IsGenuine chips nvml gpu_key cfg (lm_source k subf) = IsFound chips cfg k subf
IsGenuine chips nvml gpu_key cfg (nvidia_sensor k index name) =
    IsCounted nvml gpu_key cfg k index name
IsGenuine chips nvml gpu_key cfg (dummy_source k t) = ⊥

found_feature :
    (o : Option Feature) (s : SubFeature)
    → find_temperature o ≡ some s
    → (f : Feature) × (o ≡ some f) × (find (λ s. s.is_temperature_input) f.sub_features ≡ some s)
found_feature none s h = absurd (cc h)
found_feature (some f) s h = (f, refl, h)

found_chip :
    (feature : String) (o : Option Chip) (f : Feature)
    → find_feature feature o ≡ some f
    → (c : Chip) × (o ≡ some c) × (find (λ f. feature_name f == feature) c.features ≡ some f)
found_chip feature none f h = absurd (cc h)
found_chip feature (some c) f h = (c, refl, h)

is_named_iff : (chip : String) (name : Option String) → is_named chip name ≡ true → name ≡ some chip
is_named_iff chip none h = absurd (cc h)
is_named_iff chip (some name) h = ap some ((string_eq.beq_iff name chip).0 h)

find_input-IsInput :
    (chip feature : String) (chips : List Chip) (s : SubFeature)
    → find_input chip feature (some chips) ≡ some s
    → IsInput chips chip feature s.id
find_input-IsInput chip feature chips s h =
    let named = find (λ c. is_named chip c.name) chips in
    let (f, of, at) = found_feature (find_feature feature named) s h in
    let (c, oc, within) = found_chip feature named f of in
    let (has_c, is_c) = find-Has (λ c. is_named chip c.name) chips c oc in
    let (has_f, is_f) = find-Has (λ f. feature_name f == feature) c.features f within in
    let (has_s, is_s) = find-Has (λ s. s.is_temperature_input) f.sub_features s at in
    (
      c,
      f,
      s,
      has_c,
      is_named_iff chip c.name is_c,
      has_f,
      (string_eq.beq_iff (feature_name f) feature).0 is_f,
      has_s,
      is_s,
      refl,
    )

module _ (F : Type 0) (chips : Option (List Chip)) (gpu_key : ℕ → String)
    (cfg : List SensorCfg) where
  module _ (nvml : Nvml) where
    abbrev Genuine : Sensor F → Type 0
    Genuine s = IsGenuine chips (some nvml) gpu_key cfg s

    -- The id is that of an entry for the GPU, or its own key.
    abbrev IsKey : String → ℕ → Type 0
    IsKey k index = Has (nvidia k index) cfg ⊎ ((nvidia_configs cfg ≡ []) × (k ≡ gpu_key index))

    named-IsGenuine :
        (index : ℕ) (id : String) (handle : nvml.Handle) (answer : ℕ × String)
        → index < nvml.get_count.1
        → IsKey id index
        → nvml.get_handle index ≡ (0, handle)
        → nvml.get_name handle ≡ answer
        → All Genuine (if_created (checked answer >>= λ name. ok (nvidia_sensor id index name)))
    named-IsGenuine index id handle (zero, name) small k h n = ((handle, small, h, n, k), tt)
    named-IsGenuine index id handle (suc status, name) small k h n = tt

    handled-IsGenuine :
        (index : ℕ) (id : String) (answer : ℕ × nvml.Handle)
        → index < nvml.get_count.1
        → IsKey id index
        → nvml.get_handle index ≡ answer
        → All Genuine (
            if_created (
              checked answer >>= λ handle.
              device_name nvml handle >>= λ name. ok (nvidia_sensor id index name)))
    handled-IsGenuine index id (zero, handle) small k h =
        named-IsGenuine index id handle (nvml.get_name handle) small k h refl
    handled-IsGenuine index id (suc status, handle) small k h = tt

    created-IsGenuine :
        (index : ℕ) (id : String)
        → index < nvml.get_count.1
        → IsKey id index
        → All Genuine (if_created (create_sensor_for_gpu nvml index id))
    unfolding create_sensor_for_gpu
    created-IsGenuine index id small k =
        handled-IsGenuine index id (nvml.get_handle index) small k refl

    discover_all-AreGenuine :
        (n : ℕ)
        → n ≤ nvml.get_count.1
        → nvidia_configs cfg ≡ []
        → All Genuine (discover_all nvml gpu_key n)
    unfolding discover_all
    discover_all-AreGenuine zero h none_named = tt
    discover_all-AreGenuine (suc n) h none_named =
        All-append Genuine (discover_all nvml gpu_key n) _
          (discover_all-AreGenuine n (omega arith) none_named)
          (created-IsGenuine n (gpu_key n) (omega arith) (inr (none_named, refl)))

    configured-AreGenuine :
        (configs : List (String × ℕ))
        → All (λ e. Has (nvidia e.0 e.1) cfg) configs
        → All Genuine (discover_configured nvml nvml.get_count.1 configs)
    unfolding discover_configured
    configured-AreGenuine [] within = tt
    configured-AreGenuine ((id, index) ∷ configs) (entry, within) =
        let rest = configured-AreGenuine configs within in
        elim (Bool-cases (ltb index nvml.get_count.1)) [
          | inl e ↦ rw e (
              All-append Genuine _ (discover_configured nvml nvml.get_count.1 configs)
                (created-IsGenuine index id (ground arith) (inl entry)) rest)
          | inr e ↦ rw e rest
        ]

    counted-AreGenuine :
        (status count : ℕ) (configs : List (String × ℕ))
        → count ≡ nvml.get_count.1
        → nvidia_configs cfg ≡ configs
        → All (λ e. Has (nvidia e.0 e.1) cfg) configs
        → All Genuine (discover_counted nvml gpu_key (checked (status, count)) configs)
    counted-AreGenuine zero count [] e same within =
        discover_all-AreGenuine count (omega arith) same
    counted-AreGenuine zero count (c ∷ configs) e same within =
        rw e (configured-AreGenuine (c ∷ configs) within)
    counted-AreGenuine (suc status) count configs e same within = tt

  nvidia_configs-Has :
      (part : List SensorCfg)
      → ((x : SensorCfg) → Has x part → Has x cfg)
      → All (λ e. Has (nvidia e.0 e.1) cfg) (nvidia_configs part)
  nvidia_configs-Has [] within = tt
  nvidia_configs-Has (nvidia id index ∷ part) within =
      (within (nvidia id index) here, nvidia_configs-Has part (λ x h. within x (there h)))
  nvidia_configs-Has (lm_sensors id chip feature ∷ part) within =
      nvidia_configs-Has part (λ x h. within x (there h))

  nvidia-AreGenuine :
      (nvml : Option Nvml)
      → All (IsGenuine {F = F} chips nvml gpu_key cfg) (nvidia_discover nvml gpu_key cfg)
  unfolding nvidia_discover
  nvidia-AreGenuine none = tt
  nvidia-AreGenuine (some nvml) =
      counted-AreGenuine nvml nvml.get_count.0 nvml.get_count.1 (nvidia_configs cfg) refl refl
        (nvidia_configs-Has cfg (λ x h. h))

module _ (F : Type 0) (nvml : Option Nvml) (gpu_key : ℕ → String) (cfg : List SensorCfg) where
  found-IsGenuine :
      (chips : Option (List Chip)) (id chip feature : String) (o : Option SubFeature)
      → find_input chip feature chips ≡ o
      → Has (lm_sensors id chip feature) cfg
      → All (IsGenuine {F = F} chips nvml gpu_key cfg) (lm_found id o)
  found-IsGenuine chips id chip feature none e h = tt
  found-IsGenuine none id chip feature (some s) e h = absurd (cc e)
  found-IsGenuine (some chips) id chip feature (some s) e h =
      ((chip, feature, h, find_input-IsInput chip feature chips s e), tt)

  lm-AreGenuine :
      (chips : Option (List Chip)) (part : List SensorCfg)
      → ((x : SensorCfg) → Has x part → Has x cfg)
      → All (IsGenuine {F = F} chips nvml gpu_key cfg) (lm_discover chips part)
  unfolding lm_discover
  lm-AreGenuine chips [] within = tt
  lm-AreGenuine chips (lm_sensors id chip feature ∷ part) within =
      All-append (IsGenuine chips nvml gpu_key cfg) (lm_found id (find_input chip feature chips))
        (lm_discover chips part)
        (found-IsGenuine chips id chip feature (find_input chip feature chips) refl
          (within (lm_sensors id chip feature) here))
        (lm-AreGenuine chips part (λ x h. within x (there h)))
  lm-AreGenuine chips (nvidia id index ∷ part) within =
      lm-AreGenuine chips part (λ x h. within x (there h))

module _ (R : Floats) where
  -- The manager starts with genuine sensors, and behind them, as the last one, the dummy. A genuine sensor
  -- of lm-sensors is a temperature input of the chip and the feature that an entry of the configuration
  -- with its id names; a genuine one of NVML is a GPU below the count, with the name that the library
  -- gives it, under the id of an entry for that GPU, or under its own key where no entry names a GPU. So
  -- the key "dummy_sensor" is always found, whatever hardware there is.
  pub init_sensors-AreGenuine :
      (chips : Option (List Chip)) (nvml : Option Nvml) (gpu_key : ℕ → String)
      (cfg : List SensorCfg)
      → let sensors = init_sensors R chips nvml gpu_key cfg in
        ((found : List (Sensor R.F)) × All (IsGenuine chips nvml gpu_key cfg) found
          × (sensors ≡ found ++ dummy_source "dummy_sensor" (R.of_nat 45) ∷ []))
        × (is_some (find_by_key R "dummy_sensor" sensors) ≡ true)
  unfolding init_sensors find_by_key
  init_sensors-AreGenuine chips nvml gpu_key cfg =
      let found = lm_discover chips cfg ++ nvidia_discover nvml gpu_key cfg in
      (
        (
          found,
          All-append (IsGenuine chips nvml gpu_key cfg) (lm_discover chips cfg)
              (nvidia_discover nvml gpu_key cfg)
              (lm-AreGenuine R.F nvml gpu_key cfg chips cfg (λ x h. h))
              (nvidia-AreGenuine R.F chips gpu_key cfg nvml),
          refl,
        ),
        find-append_last (λ s. key s == "dummy_sensor") found
            (dummy_source "dummy_sensor" (R.of_nat 45)) refl,
      )
