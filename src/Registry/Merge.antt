-- ===== src/Registry/Merge.antt =====
-- The merge of the detected hardware into a configuration.
use tt_riingd.Common.{
  ℕ, List, [], ◌∷◌, ◌++◌, true, false, ◌||◌, ◌≡◌, refl, sym, ap, ◌∙◌, inl, inr, if◌then◌else◌, any,
  All, find, ◌==◌, nat_eq, arith, Bool-cases,
}
use mathlib.Core.List.{append_assoc, append-nil}
use tt_riingd.Config.{Config, ControllerCfg}
use tt_riingd.Registry.{
  HidApi, riing_quad_info, supported_hardware, is_hardware, is_supported_hardware, usb_of,
  unsupported_controllers, validate_supported_controllers, DetectedController, with_detected,
  detect, scan_hardware, controller_exists, fallback_of, merge_controllers, merge_with_config,
}

exists-append :
    (xs ys : List ControllerCfg) (d : DetectedController)
    → controller_exists (xs ++ ys) d ≡ (controller_exists xs d || controller_exists ys d)
unfolding controller_exists
exists-append [] ys d = refl
exists-append (x ∷ xs) ys d = ground (arith, exists-append xs ys d)

-- A detected controller has the one supported hardware description, and a product of it.
abbrev pub IsKnown : DetectedController → Type 0
IsKnown d =
    (d.hardware_info ≡ riing_quad_info)
    × (any (λ p. p == d.detected_pid) riing_quad_info.pids ≡ true)

with_detected-IsKnown :
    (vid pid : ℕ) (rest : List DetectedController)
    → All IsKnown rest
    → All IsKnown (with_detected (find (is_hardware vid pid) supported_hardware) pid rest)
with_detected-IsKnown vid pid rest h = elim (Bool-cases (is_hardware vid pid riing_quad_info)) [
  | inl e ↦ rw (e, if◌then◌else◌) ((refl, ground arith), h)
  | inr e ↦ rw (e, if◌then◌else◌) h
]

detect-IsKnown : (devices : List (ℕ × ℕ)) → All IsKnown (detect devices)
unfolding detect
detect-IsKnown [] = tt
detect-IsKnown ((vid, pid) ∷ devices) =
    with_detected-IsKnown vid pid (detect devices) (detect-IsKnown devices)

pub scan-IsKnown : (api : HidApi) → All IsKnown (scan_hardware api)
scan-IsKnown api = elim (Bool-cases api.available) [
  | inl e ↦ rw e (detect-IsKnown api.device_list)
  | inr e ↦ rw e tt
]

-- The entry added for a known controller stands for that controller, and is supported.
fallback-exists :
    (d : DetectedController) → IsKnown d → controller_exists (fallback_of d ∷ []) d ≡ true
unfolding controller_exists
fallback-exists d (e, s) = rw e (ground arith)

fallback-supported :
    (d : DetectedController) → IsKnown d → unsupported_controllers (fallback_of d ∷ []) ≡ []
unfolding unsupported_controllers
fallback-supported d (e, s) = rw e (rw s)

-- The controllers that a merge appends.
abbrev pub added : List ControllerCfg → List DetectedController → List ControllerCfg
added controllers [] = []
added controllers (d ∷ detected) =
    if controller_exists controllers d
    then added controllers detected
    else fallback_of d ∷ added (controllers ++ fallback_of d ∷ []) detected

merge-eq :
    (controllers : List ControllerCfg) (detected : List DetectedController)
    → merge_controllers controllers detected ≡ controllers ++ added controllers detected
unfolding merge_controllers
merge-eq controllers [] = sym (append-nil controllers)
merge-eq controllers (d ∷ detected) = elim (Bool-cases (controller_exists controllers d)) [
  | inl e ↦ rw e (merge-eq controllers detected)
  | inr e ↦ rw e (
      merge-eq (controllers ++ fallback_of d ∷ []) detected
      ∙ append_assoc controllers (fallback_of d ∷ [])
          (added (controllers ++ fallback_of d ∷ []) detected))
]

merge-old :
    (controllers : List ControllerCfg) (d : DetectedController) (detected : List DetectedController)
    → controller_exists controllers d ≡ true
    → merge_controllers controllers detected ≡ merge_controllers controllers (d ∷ detected)
unfolding merge_controllers
merge-old controllers d detected e = rw e

merge-new :
    (controllers : List ControllerCfg) (d : DetectedController) (detected : List DetectedController)
    → controller_exists controllers d ≡ false
    → merge_controllers (controllers ++ fallback_of d ∷ []) detected
      ≡ merge_controllers controllers (d ∷ detected)
unfolding merge_controllers
merge-new controllers d detected e = rw e

exists-merge :
    (controllers : List ControllerCfg) (detected : List DetectedController) (d : DetectedController)
    → controller_exists controllers d ≡ true
    → controller_exists (merge_controllers controllers detected) d ≡ true
exists-merge controllers detected d h =
    rw (merge-eq controllers detected, exists-append controllers (added controllers detected) d, h)

-- Every list that the fold passes through ends in the merged one, so what it adds stays.
merge_covers :
    (controllers : List ControllerCfg) (detected : List DetectedController)
    (merged : List ControllerCfg)
    → merge_controllers controllers detected ≡ merged
    → All IsKnown detected
    → All (λ d. controller_exists merged d ≡ true) detected
merge_covers controllers [] merged h k = tt
merge_covers controllers (d ∷ detected) merged h (k, ks) =
    elim (Bool-cases (controller_exists controllers d)) [
      | inl e ↦
          let h' = merge-old controllers d detected e ∙ h in
          (
            ap (λ m. controller_exists m d) (sym h') ∙ exists-merge controllers detected d e,
            merge_covers controllers detected merged h' ks,
          )
      | inr e ↦
          let grown = controllers ++ fallback_of d ∷ [] in
          let h' = merge-new controllers d detected e ∙ h in
          let here : controller_exists grown d ≡ true =
            exists-append controllers (fallback_of d ∷ []) d ∙ rw (e, fallback-exists d k) in
          (
            ap (λ m. controller_exists m d) (sym h') ∙ exists-merge grown detected d here,
            merge_covers grown detected merged h' ks,
          )
    ]

merge-eq_self :
    (controllers : List ControllerCfg) (detected : List DetectedController)
    → All (λ d. controller_exists controllers d ≡ true) detected
    → merge_controllers controllers detected ≡ controllers
unfolding merge_controllers
merge-eq_self controllers [] h = refl
merge-eq_self controllers (d ∷ detected) (h, hs) = rw h (merge-eq_self controllers detected hs)

unsupported-append :
    (xs ys : List ControllerCfg)
    → unsupported_controllers (xs ++ ys) ≡ unsupported_controllers xs ++ unsupported_controllers ys
unfolding unsupported_controllers
unsupported-append [] ys = refl
unsupported-append (x ∷ xs) ys =
    elim (Bool-cases (is_supported_hardware (usb_of x).vid (usb_of x).pid)) [
      | inl e ↦ ground (arith, unsupported-append xs ys)
      | inr e ↦ ground (arith, unsupported-append xs ys)
    ]

unsupported-added :
    (controllers : List ControllerCfg) (detected : List DetectedController)
    → All IsKnown detected
    → unsupported_controllers (added controllers detected) ≡ []
unsupported-added controllers [] k = unfold unsupported_controllers in refl
unsupported-added controllers (d ∷ detected) (k, ks) =
    elim (Bool-cases (controller_exists controllers d)) [
      | inl e ↦ rw e (unsupported-added controllers detected ks)
      | inr e ↦ rw e (
          unsupported-append (fallback_of d ∷ [])
            (added (controllers ++ fallback_of d ∷ []) detected)
          ∙ rw (
            fallback-supported d k,
            unsupported-added (controllers ++ fallback_of d ∷ []) detected ks,
          ))
    ]

-- After a merge every controller that the scan detected has an entry in the configuration.
pub merge_with_config_covers :
    {F : Type 0} (api : HidApi) (config : Config F)
    → All
        (λ d. controller_exists (merge_with_config api config).controllers d ≡ true)
        (scan_hardware api)
unfolding merge_with_config
merge_with_config_covers api config =
    merge_covers config.controllers (scan_hardware api) _ refl (scan-IsKnown api)

-- A merge keeps the entries of the file, in front and in their order, and appends fallbacks.
pub merge_with_config-keeps :
    {F : Type 0} (api : HidApi) (config : Config F)
    → (merge_with_config api config).controllers
      ≡ config.controllers ++ added config.controllers (scan_hardware api)
unfolding merge_with_config
merge_with_config-keeps api config = merge-eq config.controllers (scan_hardware api)

-- A second merge with the same hardware changes nothing.
pub merge_with_config-idempotent :
    {F : Type 0} (api : HidApi) (config : Config F)
    → merge_with_config api (merge_with_config api config) ≡ merge_with_config api config
unfolding merge_with_config
merge_with_config-idempotent api config =
    ap (λ cs. record config { controllers = cs })
      (merge-eq_self (merge_controllers config.controllers (scan_hardware api)) (scan_hardware api)
        (merge_covers config.controllers (scan_hardware api) _ refl (scan-IsKnown api)))

-- A merge adds no unsupported controller: validation says the same of the merged configuration.
pub validate-merge_with_config :
    {F : Type 0} (api : HidApi) (config : Config F)
    → validate_supported_controllers (merge_with_config api config)
      ≡ validate_supported_controllers config
validate-merge_with_config api config =
    ap unsupported_controllers (merge_with_config-keeps api config)
    ∙ unsupported-append config.controllers (added config.controllers (scan_hardware api))
    ∙ rw (unsupported-added config.controllers (scan_hardware api) (scan-IsKnown api))
        (append-nil _)
