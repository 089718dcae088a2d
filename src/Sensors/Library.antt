-- ===== src/Sensors/Library.antt =====
-- `NvmlLibrary::load` and `from_library` of temperature_sensors/nvidia.rs. The dynamic linker is a
-- parameter: which libraries it opens, and which symbols it finds in them.
use tt_riingd.Common.{
  String, List, [], ◌∷◌, ◌++◌, All, Option, Option-cases, inl, inr, none, some, or_else, Result, ok,
  err, panic, ◌>>=◌, ok_or, arith, ◌≡◌, refl, ap, ◌∙◌, sym, library_not_found, symbol_not_found,
}
use tt_riingd.Sensors.{Nvml, nvml_library}

pub record Linker : Type 1 where
  pub Library : Type 0
  pub Symbol : Type 0
  pub open_library : String → Option Library
  pub get : Library → String → Option Symbol

module _ (L : Linker) where
  pub record NvmlLibrary : Type 0 where
    pub init : L.Symbol
    pub shutdown : L.Symbol
    pub device_get_count : L.Symbol
    pub device_get_handle_by_index : L.Symbol
    pub device_get_name : L.Symbol
    pub device_get_temperature : L.Symbol
    pub error_string : L.Symbol

  -- Each function in its order; one that is missing is the error.
  abbrev pub resolve : (a b c d e f g : Option L.Symbol) → Result NvmlLibrary
  resolve a' b' c' d' e' f' g' = do
    init ← ok_or a' symbol_not_found
    shutdown ← ok_or b' symbol_not_found
    device_get_count ← ok_or c' symbol_not_found
    device_get_handle_by_index ← ok_or d' symbol_not_found
    device_get_name ← ok_or e' symbol_not_found
    device_get_temperature ← ok_or f' symbol_not_found
    error_string ← ok_or g' symbol_not_found
    ok (record {
      init = init;
      shutdown = shutdown;
      device_get_count = device_get_count;
      device_get_handle_by_index = device_get_handle_by_index;
      device_get_name = device_get_name;
      device_get_temperature = device_get_temperature;
      error_string = error_string;
    })

  unfoldable pub from_library : L.Library → Result NvmlLibrary
  from_library lib =
      let get = L.get lib in
      resolve (or_else (get "nvmlInit_v2") (get "nvmlInit")) (get "nvmlShutdown")
        (or_else (get "nvmlDeviceGetCount_v2") (get "nvmlDeviceGetCount"))
        (or_else (get "nvmlDeviceGetHandleByIndex_v2") (get "nvmlDeviceGetHandleByIndex"))
        (get "nvmlDeviceGetName") (get "nvmlDeviceGetTemperature") (get "nvmlErrorString")

  abbrev pub lib_names : List String
  lib_names = "libnvidia-ml.so.1" ∷ "libnvidia-ml.so" ∷ "nvidia-ml" ∷ []

  abbrev pub if_opened : Option L.Library → Result NvmlLibrary → Result NvmlLibrary
  if_opened none rest = rest
  if_opened (some lib) rest = from_library lib

  -- The loop of `load`: the first library that opens decides, also when a function is missing there.
  unfoldable pub load_first : List String → Result NvmlLibrary
  unfolding from_library
  load_first [] = err library_not_found
  load_first (name ∷ names) = if_opened (L.open_library name) (load_first names)

  unfoldable pub load : Result NvmlLibrary
  unfolding load_first
  load = load_first lib_names

  -- The `static NVML`; `bound` is what the functions answer.
  abbrev pub loaded_nvml : (NvmlLibrary → Nvml) → Result NvmlLibrary → Option Nvml
  loaded_nvml bound (ok n) = nvml_library (some (bound n))
  loaded_nvml bound (err e) = none
  loaded_nvml bound panic = none

  unfoldable pub static_nvml : (NvmlLibrary → Nvml) → Option Nvml
  unfolding load
  static_nvml bound = loaded_nvml bound load

  -- The functions stand in the library under their names.
  pub record Resolves (lib : L.Library) (n : NvmlLibrary) : Type 0 where
    pub init_found : or_else (L.get lib "nvmlInit_v2") (L.get lib "nvmlInit") ≡ some n.init
    pub shutdown_found : L.get lib "nvmlShutdown" ≡ some n.shutdown
    pub count_found :
        or_else (L.get lib "nvmlDeviceGetCount_v2") (L.get lib "nvmlDeviceGetCount")
        ≡ some n.device_get_count
    pub handle_found :
        or_else (L.get lib "nvmlDeviceGetHandleByIndex_v2") (L.get lib "nvmlDeviceGetHandleByIndex")
        ≡ some n.device_get_handle_by_index
    pub name_found : L.get lib "nvmlDeviceGetName" ≡ some n.device_get_name
    pub temperature_found : L.get lib "nvmlDeviceGetTemperature" ≡ some n.device_get_temperature
    pub error_found : L.get lib "nvmlErrorString" ≡ some n.error_string

  resolve-eq_ok :
      (a b c d e f g : Option L.Symbol) (n : NvmlLibrary)
      → resolve a b c d e f g ≡ ok n
      → (a ≡ some n.init)
        × (b ≡ some n.shutdown)
        × (c ≡ some n.device_get_count)
        × (d ≡ some n.device_get_handle_by_index)
        × (e ≡ some n.device_get_name)
        × (f ≡ some n.device_get_temperature)
        × (g ≡ some n.error_string)
  resolve-eq_ok none b c d e f g n h = cc
  resolve-eq_ok (some _) none c d e f g n h = cc
  resolve-eq_ok (some _) (some _) none d e f g n h = cc
  resolve-eq_ok (some _) (some _) (some _) none e f g n h = cc
  resolve-eq_ok (some _) (some _) (some _) (some _) none f g n h = cc
  resolve-eq_ok (some _) (some _) (some _) (some _) (some _) none g n h = cc
  resolve-eq_ok (some _) (some _) (some _) (some _) (some _) (some _) none n h = cc
  resolve-eq_ok (some _) (some _) (some _) (some _) (some _) (some _) (some _) n h = ground arith

  from_library-Resolves :
      (lib : L.Library) (n : NvmlLibrary) → from_library lib ≡ ok n → Resolves lib n
  unfolding from_library
  from_library-Resolves lib n h =
      let get = L.get lib in
      let (a, b, c, d, e, f, g) =
        resolve-eq_ok (or_else (get "nvmlInit_v2") (get "nvmlInit")) (get "nvmlShutdown")
          (or_else (get "nvmlDeviceGetCount_v2") (get "nvmlDeviceGetCount"))
          (or_else (get "nvmlDeviceGetHandleByIndex_v2") (get "nvmlDeviceGetHandleByIndex"))
          (get "nvmlDeviceGetName") (get "nvmlDeviceGetTemperature") (get "nvmlErrorString") n h in
      record {
        init_found = a;
        shutdown_found = b;
        count_found = c;
        handle_found = d;
        name_found = e;
        temperature_found = f;
        error_found = g;
      }

  opened-Resolves :
      (names : List String) (n : NvmlLibrary)
      → load_first names ≡ ok n
      → (before behind : List String) × (name : String) × (lib : L.Library) × (names
          ≡ before ++ name ∷ behind)
        × All (λ other. L.open_library other ≡ none) before
        × (L.open_library name ≡ some lib)
        × Resolves lib n
  unfolding load_first
  opened-Resolves [] n h = cc
  opened-Resolves (name ∷ names) n h = elim (Option-cases (L.open_library name)) [
    | inl e ↦
        let (before, behind, other, lib, split, closed, opened, r) =
          opened-Resolves names n (ap (λ o. if_opened o (load_first names)) (sym e) ∙ h) in
        (name ∷ before, behind, other, lib, ap (λ l. name ∷ l) split, (e, closed), opened, r)
    | inr (lib, e) ↦ (
      [],
      names,
      name,
      lib,
      refl,
      tt,
      e,
      from_library-Resolves lib n (ap (λ o. if_opened o (load_first names)) (sym e) ∙ h),
    )
  ]

  -- When NVML is loaded, it is the first library of the three names that opens, and all seven functions
  -- are its own: for three of them the newer version, if there is one.
  pub load-Resolves :
      (n : NvmlLibrary)
      → load ≡ ok n
      → (before behind : List String) × (name : String) × (lib : L.Library) × (lib_names
          ≡ before ++ name ∷ behind)
        × All (λ other. L.open_library other ≡ none) before
        × (L.open_library name ≡ some lib)
        × Resolves lib n
  unfolding load
  load-Resolves n h = opened-Resolves lib_names n h
