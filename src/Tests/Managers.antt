-- ===== src/Tests/Managers.antt =====
-- Managers of a counting controller and of a simulated one.
use tt_riingd.Common.{
  ℕ, ◌≡◌, refl, List, [], ◌∷◌, String, some, ok, Dict, lookup, insert, nat_eq, string_eq, arith,
}
use tt_riingd.Protocol.{Rgb}
use tt_riingd.Hid.{fingerprint_eq}
use tt_riingd.Worker.{new_manager, initialize}
use tt_riingd.Worker.Pool.{new_manager-IsPool}
use tt_riingd.Manager.{quad_controller, ControllerManager, attach}
use tt_riingd.Manager.Validity.{IsValid, attach-IsValid}
use tt_riingd.Tests.Device.{sim, quad, idle_fan, fingerprint}
use tt_riingd.Tests.Workers.{counting}
use tt_riingd.Tests.Registries.{api, main_controller}
use tt_riingd.Config.{ControllerCfg}
use tt_riingd.Registry.{create_fallback_config, build_controllers, build_one_controller, create_one}
use tt_riingd.Manager.Setup.{init_from_cfg, workers_by_id}
use tt_riingd.Manager.Start.{AreReady, init_from_cfg-IsValid}

abbrev empty : ControllerManager counting
empty = record {
  worker_manager = new_manager counting;
  controller_id2worker_id = [];
  fingerprint2controller_id = [];
}

empty-IsValid : IsValid empty
unfolding lookup
empty-IsValid = record {
  pool = new_manager-IsPool;
  assigned = λ id worker h. absurd (cc h);
  distinct = λ a b worker g h. absurd (cc g);
}

abbrev pub attached : ControllerManager counting
attached = attach counting (fingerprint 1) 3 empty

attached-IsValid : IsValid attached
attached-IsValid = attach-IsValid (fingerprint 1) 3 empty empty-IsValid (omega arith)

abbrev entries : Dict String (List (ℕ × List Rgb))
entries = ("counting", []) ∷ ("nobody", []) ∷ []

-- The manager of a configuration with one controller that opens and one that does not.
abbrev pub first_manager : ControllerManager (quad_controller sim)
first_manager = record {
  worker_manager =
      initialize (quad_controller sim)
        (record quad { fans = idle_fan ∷ idle_fan ∷ []; name = "main" } ∷ [])
        (new_manager (quad_controller sim));
  controller_id2worker_id = ("main", some 1) ∷ [];
  fingerprint2controller_id = (fingerprint 0x232B, "main") ∷ [];
}

abbrev pub start_cfgs : List ControllerCfg
start_cfgs = main_controller ∷ create_fallback_config (fingerprint 7) ∷ []

pub starts : (init_from_cfg api start_cfgs []).0 ≡ ok first_manager
unfolding init_from_cfg build_controllers build_one_controller create_one workers_by_id insert
starts = refl

init_from_cfg-IsValid_example :
    IsValid first_manager
    × AreReady first_manager.controller_id2worker_id first_manager.worker_manager
init_from_cfg-IsValid_example =
    init_from_cfg-IsValid api start_cfgs [] first_manager (omega arith) starts
