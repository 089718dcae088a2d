-- ===== src/Tests/Sources.antt =====
-- Sensors, the search for the configuration, and single requests.
use tt_riingd.Common.{
  ap, ◌>>=◌, ℕ, ◌≡◌, List, [], ◌∷◌, ◌++◌, String, none, some, is_some, true, ok, All, ◌==◌,
  string_eq,
}
use tt_riingd.Config.{SensorCfg, lm_sensors, nvidia}
use tt_riingd.Config.Locate.{Environment, locate_config, load}
use tt_riingd.Sensors.{Sensor, dummy_source, Nvml, Chip, init_sensors, find_by_key}
use tt_riingd.Sensors.Discovery.{IsGenuine, init_sensors-AreGenuine}
use tt_riingd.Tests.Curves.{fixed}
use tt_riingd.Tests.Configs.{parsed, loaded, file_loads}
use tt_riingd.Tests.Registries.{api}

-- One GPU.
abbrev nvml : Nvml
nvml = record {
  Handle = ℕ;
  init_status = 0;
  get_count = (0, 1);
  get_handle = λ index. (0, index);
  get_name = λ h. (0, "GPU");
  get_temperature = λ h. (0, 61);
}

abbrev chips : List Chip
chips =
    record {
      name = some "k10temp";
      features =
          record {
            name = some "Tctl";
            sub_features = record { id = 7; is_temperature_input = true } ∷ [];
          }
          ∷ [];
    }
    ∷ []

abbrev cfg : List SensorCfg
cfg =
    lm_sensors "cpu" "k10temp" "Tctl"
    ∷ nvidia "gpu" 0
    ∷ nvidia "gpu2" 1
    ∷ lm_sensors "board" "nct" "temp1"
    ∷ []

abbrev gpu_key : ℕ → String
gpu_key n = "nvidia_gpu"

init_sensors-AreGenuine_example :
    let sensors = init_sensors fixed (some chips) (some nvml) gpu_key cfg in
    ((found : List (Sensor fixed.F)) × All (IsGenuine (some chips) (some nvml) gpu_key cfg) found
      × (sensors ≡ found ++ dummy_source "dummy_sensor" (fixed.of_nat 45) ∷ []))
    × (is_some (find_by_key fixed "dummy_sensor" sensors) ≡ true)
init_sensors-AreGenuine_example = init_sensors-AreGenuine fixed (some chips) (some nvml) gpu_key cfg

abbrev pub env : Environment
env = record {
  PathBuf = String;
  tt_riingd_config = none;
  xdg_config_home = none;
  home = some "home";
  join = λ dir name. name;
  etc_config = "etc";
  exists_file = λ p. p == "tt_riingd/config.yml";
  read_to_string = λ p. ok "";
}

pub finds :
    load env api parsed none ≡ ok (record { config = loaded; path = "tt_riingd/config.yml" })
unfolding load locate_config
finds =
    ap (λ r. r >>= λ config. ok (record { config = config; path = "tt_riingd/config.yml" }))
      file_loads
