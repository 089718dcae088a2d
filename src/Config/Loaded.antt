-- ===== src/Config/Loaded.antt =====
-- What holds of a configuration that was loaded.
use Prim.Native.Char.{Char, code}
use Prim.Native.String.{◌++◌ as join}
use Prim.Native.String.append
use text.Mathlib.TextEquality.{starts_with_iff}
use tt_riingd.Common.{
  ℕ, ◌≡◌, refl, sym, ap, ◌∙◌, inl, inr, List, [], ◌∷◌, ◌++◌, String, true, false, Result, ok, err,
  panic, ◌>>=◌, ◌>>◌, All, Bool-cases, arith,
}
use tt_riingd.Hid.{HardwareFingerprint}
use tt_riingd.Config.{Config, ControllerCfg, FanTarget}
use tt_riingd.Config.Changes.{hot_reload, analyze_changes, analyze_changes-hot_iff}
use tt_riingd.Config.Load.{
  is_autogenerated, autogenerated_targets, with_dummies, ensure_mappings, no_unsupported, validate,
  require_version, load_config, reload, store_loaded, analyze_config_changes,
}
use tt_riingd.Registry.{
  HidApi, decimal, fallback_id, create_fallback_config, DetectedController, scan_hardware,
  controller_exists, merge_with_config, validate_supported_controllers, Unsupported,
}
use tt_riingd.Registry.Merge.{
  merge_with_config_covers, validate-merge_with_config, merge_with_config-keeps, added, IsKnown,
  scan-IsKnown,
}

-- A configuration that the daemon may run with.
pub record IsLoaded {F : Type 0} (api : HidApi) (config : Config F) : Type 0 where
  pub version_one : config.version ≡ 1
  pub all_supported : validate_supported_controllers config ≡ []
  pub all_detected : All (λ d. controller_exists config.controllers d ≡ true) (scan_hardware api)

-- What a chain that succeeded went through.
pub >>=-eq_ok {ℓ κ} :
    {A : Type ℓ} {B : Type κ} (r : Result A) (next : A → Result B) {out : B}
    → (r >>= next) ≡ ok out
    → (value : A) × (r ≡ ok value) × (next value ≡ ok out)
>>=-eq_ok panic next h = cc
>>=-eq_ok (err reason) next h = cc
>>=-eq_ok (ok value) next h = (value, refl, h)

no_unsupported-eq_ok : (us : List Unsupported) {t : Unit {0}} → no_unsupported us ≡ ok t → us ≡ []
no_unsupported-eq_ok [] h = refl
no_unsupported-eq_ok (u ∷ us) h = cc

require_version-eq_ok : (version : ℕ) {t : Unit {0}} → require_version version ≡ ok t → version ≡ 1
require_version-eq_ok version h = ground arith

-- The mappings that are added leave the version and the controllers alone.
ensure_mappings-IsLoaded :
    {F : Type 0} (api : HidApi) (config : Config F) {done : Config F}
    → ensure_mappings config ≡ ok done
    → IsLoaded api config
    → IsLoaded api done
unfolding ensure_mappings
ensure_mappings-IsLoaded api config {done} h l =
    let (targets, _, e) = >>=-eq_ok (autogenerated_targets [] config.controllers) _ h in
    let same : with_dummies config targets ≡ done = ground arith in
    rw (← same) (record {
      version_one = l.version_one;
      all_supported = l.all_supported;
      all_detected = l.all_detected;
    })

store_loaded-IsLoaded :
    {F : Type 0} {api : HidApi} (r : Result (Config F)) (config : Config F)
    → ((c : Config F) → r ≡ ok c → IsLoaded api c)
    → IsLoaded api config
    → IsLoaded api (store_loaded r config).1
store_loaded-IsLoaded (ok c) config h l = h c refl
store_loaded-IsLoaded (err e) config h l = l
store_loaded-IsLoaded panic config h l = l

module _ {F : Type 0} (api : HidApi) (from_str : String → Result (Config F)) where
  -- Whatever the file holds, a configuration that loads has version 1, names supported controllers
  -- only, and has an entry for each controller that the scan detected.
  pub load_config-IsLoaded :
      (content : Result String) (config : Config F)
      → load_config api from_str content ≡ ok config
      → IsLoaded api config
  unfolding load_config validate merge_with_config
  load_config-IsLoaded content config h =
      let (text, _, h1) = >>=-eq_ok content _ h in
      let (file, _, h2) = >>=-eq_ok (from_str text) _ h1 in
      let (_, v, h3) = >>=-eq_ok (require_version file.version) _ h2 in
      let (_, u, h4) = >>=-eq_ok (validate file) _ h3 in
      ensure_mappings-IsLoaded api (merge_with_config api file) h4 (record {
        version_one = require_version-eq_ok file.version v;
        all_supported =
            validate-merge_with_config api file
            ∙ no_unsupported-eq_ok (validate_supported_controllers file) u;
        all_detected = merge_with_config_covers api file;
      })

  -- A reload that succeeds stores a loaded configuration, and one that does not keeps the old one:
  -- the manager never holds a configuration that was not loaded.
  pub reload-IsLoaded :
      (content : Result String) (config : Config F)
      → IsLoaded api config
      → IsLoaded api (reload api from_str content config).1
  unfolding reload
  reload-IsLoaded content config l =
      store_loaded-IsLoaded (load_config api from_str content) config (load_config-IsLoaded content)
        l

  -- A file that has not changed since it was loaded asks for no restart.
  pub analyze_config_changes-unchanged :
      (content : Result String) (config : Config F)
      → load_config api from_str content ≡ ok config
      → analyze_config_changes api from_str content config ≡ ok hot_reload
  unfolding analyze_config_changes
  analyze_config_changes-unchanged content config h =
      ap (λ r. r >>= λ new_config. ok (analyze_changes config new_config)) h
      ∙ ap ok ((analyze_changes-hot_iff config config).1 (refl, refl))

abbrev head_code : String → ℕ
head_code String.[] = 0
head_code (String.◌∷◌ c s) = code c

head-append : (c : Char) (s t : String) → head_code (join (String.◌∷◌ c s) t) ≡ code c
head-append c s t = ap head_code (λ i. append.cons c s t i)

letters_differ : ¬ (code "a" ≡ code "f")
letters_differ h = absurd (omega arith)

-- A fallback controller is never taken for an autogenerated one.
fallback_not_autogenerated :
    (f : HardwareFingerprint) → is_autogenerated (create_fallback_config f) ≡ false
unfolding fallback_id
fallback_not_autogenerated f = elim (Bool-cases (is_autogenerated (create_fallback_config f))) [
  | inl e ↦
      let rest = join (decimal f.vendor_id) (join ":" (decimal f.product_id)) in
      let (t, p) = (starts_with_iff (fallback_id f) "autogenerated").0 e in
      absurd (
        letters_differ (
          sym (head-append "a" "utogenerated" t)
          ∙ ap head_code p
          ∙ head-append "f" "allback_" rest))
  | inr e ↦ e
]

autogenerated_targets-skip :
    (targets : List FanTarget) (cs : List ControllerCfg)
    → All (λ c. is_autogenerated c ≡ false) cs
    → autogenerated_targets targets cs ≡ ok targets
unfolding autogenerated_targets
autogenerated_targets-skip targets [] h = refl
autogenerated_targets-skip targets (c ∷ cs) (h, hs) =
    ground (arith, autogenerated_targets-skip targets cs hs)

abbrev IsManual : ControllerCfg → Type 0
IsManual c = is_autogenerated c ≡ false

All-append :
    (xs ys : List ControllerCfg) → All IsManual xs → All IsManual ys → All IsManual (xs ++ ys)
All-append [] ys h k = k
All-append (x ∷ xs) ys (h, hs) k = (h, All-append xs ys hs k)

added-IsManual :
    (controllers : List ControllerCfg) (detected : List DetectedController)
    → All IsKnown detected
    → All IsManual (added controllers detected)
added-IsManual controllers [] k = tt
added-IsManual controllers (d ∷ detected) ((e, s), ks) =
    elim (Bool-cases (controller_exists controllers d)) [
      | inl h ↦ rw h (added-IsManual controllers detected ks)
      | inr h ↦ rw h (rw e (fallback_not_autogenerated _), added-IsManual _ detected ks)
    ]

ensure_mappings-IsManual :
    {F : Type 0} (config : Config F)
    → All IsManual config.controllers
    → ensure_mappings config ≡ ok (with_dummies config [])
unfolding ensure_mappings
ensure_mappings-IsManual config h =
    ap (λ r. r >>= λ targets. ok (with_dummies config targets))
      (autogenerated_targets-skip [] config.controllers h)

merged-IsManual :
    {F : Type 0} (api : HidApi) (file : Config F)
    → All IsManual file.controllers
    → All IsManual (merge_with_config api file).controllers
merged-IsManual api file h = rw (merge_with_config-keeps api file) (
    All-append file.controllers _ h
      (added-IsManual file.controllers (scan_hardware api) (scan-IsKnown api)))

-- What passed the checks of a load.
checked :
    {F : Type 0} (file config : Config F) (done : Result (Config F))
    → (require_version file.version >> (validate file >> done)) ≡ ok config
    → done ≡ ok config
checked file config done h =
    let (_, _, h1) = >>=-eq_ok (require_version file.version) _ h in
    (>>=-eq_ok (validate file) _ h1).2

-- If no controller of the file has an id that starts with `autogenerated`, loading adds just one
-- mapping, of the dummy sensor to no fan at all, also when the scan added controllers.
pub load_config_no_default_fans :
    {F : Type 0} (api : HidApi) (from_str : String → Result (Config F)) (text : String)
    (file config : Config F)
    → from_str text ≡ ok file
    → All IsManual file.controllers
    → load_config api from_str (ok text) ≡ ok config
    → config.mappings ≡ file.mappings ++ record { sensor = "dummy_sensor"; targets = [] } ∷ []
unfolding load_config merge_with_config
load_config_no_default_fans api from_str text file config parsed manual h =
    let done = ensure_mappings (merge_with_config api file) in
    let passed : done ≡ ok config = checked file config done (rw parsed at h) in
    let made =
      ensure_mappings-IsManual (merge_with_config api file) (merged-IsManual api file manual) in
    let same : with_dummies (merge_with_config api file) [] ≡ config = cc in
    ap (λ c. c.mappings) (sym same)
