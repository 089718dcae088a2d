-- ===== src/Registry.antt =====
-- drivers/registry.rs, with the hardware description of drivers/tt_riing_quad/ttriing_quad.rs: which
-- controllers are supported, how they are built, and the cache of their configurations. The HID API
-- of the hidapi package is a parameter.
pub mod Merge
pub mod Cache
use Prim.Native.String.{◌++◌ as append}
use tt_riingd.Common.{
  ℕ, zero, suc, ◌+◌, ◌/◌, ◌%◌, List, [], ◌∷◌, ◌++◌, map, String, Option, none, some, Bool, true,
  false, ◌&&◌, ◌||◌, Result, ok, err, panic, io_error, no_hid_api, default_failed, if◌then◌else◌,
  any, find, get_or, ltb, eqb, ◌==◌, nat_eq, Dict, lookup, insert,
}
use tt_riingd.Hid.{HidDevice, HardwareFingerprint, fingerprint_eq}
use tt_riingd.Quad.{Controller}
use tt_riingd.Config.{Config, ControllerCfg, riing_quad, UsbSelector, controller_id}

-- What `HidApi::new` found, if it succeeded, and how it opens a device by vendor and product.
pub record HidApi : Type 1 where
  pub available : Bool
  pub device : HidDevice
  pub device_list : List (ℕ × ℕ)
  pub open_device : ℕ → ℕ → Result (device.State)

-- A number below 10 ^ 5 in decimal digits, as `format!` writes a `u16`.
decimal_on : ℕ → ℕ → String → String
decimal_on zero n rest = rest
decimal_on (suc fuel) n rest =
    let digits : List String = "0" ∷ "1" ∷ "2" ∷ "3" ∷ "4" ∷ "5" ∷ "6" ∷ "7" ∷ "8" ∷ "9" ∷ [] in
    let digit = append (get_or digits (n % 10) "") rest in
    let more = decimal_on fuel (n / 10) digit in if ltb n 10 then digit else more

unfoldable pub decimal : ℕ → String
unfolding decimal_on
decimal n = decimal_on 5 n ""

-- `create_fallback_config_internal`.
unfoldable pub fallback_id : HardwareFingerprint → String
unfolding decimal
fallback_id f =
    append "fallback_" (append (decimal f.vendor_id) (append ":" (decimal f.product_id)))

abbrev pub create_fallback_config : HardwareFingerprint → ControllerCfg
create_fallback_config f =
    riing_quad (fallback_id f) (record { vid = f.vendor_id; pid = f.product_id; serial = f.serial })
      []

pub record HardwareInfo : Type 0 where
  pub vid : ℕ
  pub pids : List ℕ
  pub channel_count : ℕ
  pub name : String
  pub fallback : HardwareFingerprint → ControllerCfg

-- `TTRiingQuad::hardware_info`.
abbrev pub riing_quad_info : HardwareInfo
riing_quad_info = record {
  vid = 0x264a;
  pids = 0x232B ∷ 0x232C ∷ 0x232D ∷ 0x232E ∷ [];
  channel_count = 5;
  name = "TTRiingQuad";
  fallback = create_fallback_config;
}

abbrev pub supported_hardware : List HardwareInfo
supported_hardware = riing_quad_info ∷ []

abbrev pub is_hardware : ℕ → ℕ → HardwareInfo → Bool
is_hardware vid pid hw = hw.vid == vid && any (λ p. p == pid) hw.pids

unfoldable pub is_supported_hardware : ℕ → ℕ → Bool
is_supported_hardware vid pid = any (is_hardware vid pid) supported_hardware

abbrev pub usb_of : ControllerCfg → UsbSelector
usb_of (riing_quad id usb fans) = usb

-- The message for a controller that is not supported, by what it is formatted from.
pub record Unsupported : Type 0 where
  pub id : String
  pub vid : ℕ
  pub pid : ℕ

unfoldable pub unsupported_controllers : List ControllerCfg → List Unsupported
unfolding is_supported_hardware
unsupported_controllers [] = []
unsupported_controllers (c ∷ cs) =
    let usb = usb_of c in
    let rest = unsupported_controllers cs in
    if is_supported_hardware usb.vid usb.pid
    then rest
    else record { id = controller_id c; vid = usb.vid; pid = usb.pid } ∷ rest

-- `validate_supported_controllers`.
abbrev pub validate_supported_controllers : {F : Type 0} → Config F → List Unsupported
validate_supported_controllers config = unsupported_controllers config.controllers

pub record DetectedController : Type 0 where
  pub hardware_info : HardwareInfo
  pub detected_pid : ℕ

abbrev pub with_detected :
    Option HardwareInfo → ℕ → List DetectedController → List DetectedController
with_detected none pid rest = rest
with_detected (some hw) pid rest = record { hardware_info = hw; detected_pid = pid } ∷ rest

-- The `filter_map` of `scan_hardware`.
unfoldable pub detect : List (ℕ × ℕ) → List DetectedController
detect [] = []
detect ((vid, pid) ∷ devices) =
    with_detected (find (is_hardware vid pid) supported_hardware) pid (detect devices)

abbrev pub scan_hardware : HidApi → List DetectedController
scan_hardware api = if api.available then detect api.device_list else []

unfoldable pub controller_exists : List ControllerCfg → DetectedController → Bool
controller_exists controllers d =
    any (λ c. (usb_of c).vid == d.hardware_info.vid && (usb_of c).pid == d.detected_pid) controllers

-- The configuration that a detected controller is added with.
abbrev pub fallback_of : DetectedController → ControllerCfg
fallback_of d =
    d.hardware_info.fallback
      (record { vendor_id = d.hardware_info.vid; product_id = d.detected_pid; serial = none })

-- The fold of `merge_with_config`.
unfoldable pub merge_controllers : List ControllerCfg → List DetectedController → List ControllerCfg
merge_controllers controllers [] = controllers
merge_controllers controllers (d ∷ detected) =
    merge_controllers
      (if controller_exists controllers d then controllers else controllers ++ fallback_of d ∷ [])
      detected

unfoldable pub merge_with_config : {F : Type 0} → HidApi → Config F → Config F
unfolding merge_controllers
merge_with_config api config = record config {
  controllers = merge_controllers config.controllers (scan_hardware api);
}

module _ (api : HidApi) where
  -- `TTRiingQuad::create_one`; the serial number of the selector is not used.
  unfoldable pub create_one : ControllerCfg → Result (Controller api.device)
  create_one (riing_quad id usb fans) = elim (api.open_device usb.vid usb.pid) [
    | ok dev ↦ ok (record {
      name = id;
      dev = dev;
      fans = map (λ _. record { current_speed = 0; current_rpm = 0 }) fans;
    })
    | err e ↦ err e
    | panic ↦ panic
  ]

  unfoldable pub build_one_controller : ControllerCfg → Result (Controller api.device)
  unfolding create_one
  build_one_controller cfg = if api.available then create_one cfg else err no_hid_api

  -- `get_fingerprint` of a controller that was built.
  abbrev pub fingerprint_of : Controller api.device → Result HardwareFingerprint
  fingerprint_of c = api.device.device_info c.dev

  abbrev pub cache_fingerprint :
      Result HardwareFingerprint
      → ControllerCfg
      → Dict HardwareFingerprint ControllerCfg
      → Dict HardwareFingerprint ControllerCfg
  cache_fingerprint (ok fingerprint) cfg cache = insert fingerprint cfg cache
  cache_fingerprint (err e) cfg cache = cache
  cache_fingerprint panic cfg cache = cache

  abbrev pub cache_built :
      Result (Controller api.device)
      → ControllerCfg
      → Dict HardwareFingerprint ControllerCfg
      → Dict HardwareFingerprint ControllerCfg
  cache_built (ok c) cfg cache = cache_fingerprint (fingerprint_of c) cfg cache
  cache_built (err e) cfg cache = cache
  cache_built panic cfg cache = cache

  -- A controller that cannot be built is left out.
  abbrev pub with_built :
      Result (Controller api.device) → List (Controller api.device) → List (Controller api.device)
  with_built (ok c) built = c ∷ built
  with_built (err e) built = built
  with_built panic built = built

  -- The `filter_map` of `build_controllers_from_config`.
  unfoldable pub build_controllers :
      List ControllerCfg
      → Dict HardwareFingerprint ControllerCfg
      → List (Controller api.device) × Dict HardwareFingerprint ControllerCfg
  build_controllers [] cache = ([], cache)
  build_controllers (cfg ∷ cfgs) cache =
      let created = build_one_controller cfg in
      let (built, cache') = build_controllers cfgs (cache_built created cfg cache) in
      (with_built created built, cache')

  abbrev pub cache_default :
      Result (Controller api.device)
      → HardwareFingerprint
      → ControllerCfg
      → Dict HardwareFingerprint ControllerCfg
      → Result (Controller api.device) × Dict HardwareFingerprint ControllerCfg
  cache_default (ok c) f cfg cache = (ok c, insert f cfg cache)
  cache_default (err e) f cfg cache = (err default_failed, cache)
  cache_default panic f cfg cache = (panic, cache)

  unfoldable pub build_default_controller :
      HardwareFingerprint
      → Dict HardwareFingerprint ControllerCfg
      → Result (Controller api.device) × Dict HardwareFingerprint ControllerCfg
  build_default_controller f cache =
      let cfg = create_fallback_config f in cache_default (build_one_controller cfg) f cfg cache

  abbrev pub build_cached :
      Option ControllerCfg
      → HardwareFingerprint
      → Dict HardwareFingerprint ControllerCfg
      → Result (Controller api.device) × Dict HardwareFingerprint ControllerCfg
  build_cached (some cfg) f cache = (build_one_controller cfg, cache)
  build_cached none f cache = build_default_controller f cache

  unfoldable pub build_controller_from_fingerprint :
      HardwareFingerprint
      → Dict HardwareFingerprint ControllerCfg
      → Result (Controller api.device) × Dict HardwareFingerprint ControllerCfg
  build_controller_from_fingerprint f cache = build_cached (lookup f cache) f cache
