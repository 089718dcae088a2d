-- ===== src/Config/Locate.antt =====
-- `locate_config` and `ConfigManager::load` of config/cfg.rs. The environment and the file system are
-- parameters.
use mathlib.Core.Path.{subst}
use tt_riingd.Common.{
  String, Option, none, some, or_else, Bool, Result, ok, err, ◌>>=◌, if◌then◌else◌, ◌≡◌,
  config_not_found,
}
use tt_riingd.Config.{Config}
use tt_riingd.Config.Load.{load_config}
use tt_riingd.Config.Loaded.{IsLoaded, load_config-IsLoaded, >>=-eq_ok}
use tt_riingd.Registry.{HidApi}

pub record Environment : Type 1 where
  pub PathBuf : Type 0
  pub tt_riingd_config : Option PathBuf
  pub xdg_config_home : Option PathBuf
  pub home : Option PathBuf
  pub join : PathBuf → String → PathBuf
  pub etc_config : PathBuf
  pub exists_file : PathBuf → Bool
  pub read_to_string : PathBuf → Result String

module _ (env : Environment) where
  abbrev pub config_of_home : Option env.PathBuf → Option env.PathBuf
  config_of_home none = none
  config_of_home (some h) = some (env.join h ".config")

  abbrev pub etc_or_fail : Result env.PathBuf
  etc_or_fail = if env.exists_file env.etc_config then ok env.etc_config else err config_not_found

  abbrev pub user_or_etc : Option env.PathBuf → Result env.PathBuf
  user_or_etc none = etc_or_fail
  user_or_etc (some dir) =
      let file = env.join dir "tt_riingd/config.yml" in
      if env.exists_file file then ok file else etc_or_fail

  abbrev pub env_or_dirs : Option env.PathBuf → Result env.PathBuf
  env_or_dirs (some p) = ok p
  env_or_dirs none = user_or_etc (or_else env.xdg_config_home (config_of_home env.home))

  unfoldable pub locate_config : Result env.PathBuf
  locate_config = env_or_dirs env.tt_riingd_config

  module _ {F : Type 0} (api : HidApi) (from_str : String → Result (Config F)) where
    pub record ConfigManager : Type 0 where
      pub config : Config F
      pub path : env.PathBuf

    abbrev pub path_or_located : Option env.PathBuf → Result env.PathBuf
    path_or_located (some p) = ok p
    path_or_located none = locate_config

    unfoldable pub load : Option env.PathBuf → Result ConfigManager
    load path = do
      config_path ← path_or_located path
      config ← load_config api from_str (env.read_to_string config_path)
      ok (record { config = config; path = config_path })

    -- A manager that `load` gives holds a configuration that is fit for the daemon, and the path that it
    -- was read from, so that a reload reads the same file: the one that was asked for, or, without one,
    -- the one that was located.
    pub load-IsLoaded :
        (path : Option env.PathBuf) (m : ConfigManager)
        → load path ≡ ok m
        → IsLoaded api m.config
          × (path_or_located path ≡ ok m.path)
          × (load_config api from_str (env.read_to_string m.path) ≡ ok m.config)
    unfolding load
    load-IsLoaded path m h =
        let (p, found, h1) = >>=-eq_ok (path_or_located path) _ h in
        let (config, loaded, h2) =
          >>=-eq_ok (load_config api from_str (env.read_to_string p)) _ h1 in
        let made : ◌≡◌ {A = ConfigManager} (record { config = config; path = p }) m = cc in
        subst
          (λ k.
            IsLoaded api k.config
            × (path_or_located path ≡ ok k.path)
            × (load_config api from_str (env.read_to_string k.path) ≡ ok k.config))
          made
          (load_config-IsLoaded api from_str (env.read_to_string p) config loaded, found, loaded)
