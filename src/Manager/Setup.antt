-- ===== src/Manager/Setup.antt =====
-- `ControllerManager::init_from_cfg` and `device_connected`, with the registry and its cache.
use tt_riingd.Common.{
  ℕ, suc, List, [], ◌∷◌, String, Option, some, Result, ok, err, panic, string_eq, Dict, insert,
}
use tt_riingd.Hid.{HardwareFingerprint, fingerprint_eq}
use tt_riingd.Quad.{Controller}
use tt_riingd.Config.{ControllerCfg}
use tt_riingd.Registry.{
  HidApi, fingerprint_of, build_controllers, build_controller_from_fingerprint,
}
use tt_riingd.Worker.{new_manager, initialize}
use tt_riingd.Manager.{quad_controller, ControllerManager, attach}

module _ (api : HidApi) where
  -- The collection into `fingerprint2controller_id`. `get_device_info().await.unwrap()` panics on a
  -- device that does not tell its identity.
  abbrev pub known_as :
      Result HardwareFingerprint
      → String
      → Dict HardwareFingerprint String
      → Result (Dict HardwareFingerprint String)
  known_as (ok f) id known = ok (insert f id known)
  known_as (err e) id known = panic
  known_as panic id known = panic

  abbrev pub ids_by_fingerprint :
      Result (Dict HardwareFingerprint String)
      → List (Controller api.device)
      → Result (Dict HardwareFingerprint String)
  ids_by_fingerprint known [] = known
  ids_by_fingerprint (ok known) (c ∷ cs) =
      ids_by_fingerprint (known_as (fingerprint_of api c) c.name known) cs
  ids_by_fingerprint (err e) (c ∷ cs) = err e
  ids_by_fingerprint panic (c ∷ cs) = panic

  -- The worker of the controller at `index` is `index + 1`.
  unfoldable pub workers_by_id :
      ℕ → List (Controller api.device) → Dict String (Option ℕ) → Dict String (Option ℕ)
  workers_by_id index [] ids = ids
  workers_by_id index (c ∷ cs) ids =
      workers_by_id (suc index) cs (insert c.name (some (suc index)) ids)

  abbrev pub managed :
      Result (Dict HardwareFingerprint String)
      → List (Controller api.device)
      → Result (ControllerManager (quad_controller api.device))
  managed (ok known) cs = ok (record {
    worker_manager =
        initialize (quad_controller api.device) cs (new_manager (quad_controller api.device));
    controller_id2worker_id = workers_by_id 0 cs [];
    fingerprint2controller_id = known;
  })
  managed (err e) cs = err e
  managed panic cs = panic

  unfoldable pub init_from_cfg :
      List ControllerCfg
      → Dict HardwareFingerprint ControllerCfg
      → Result (ControllerManager (quad_controller api.device))
        × Dict HardwareFingerprint ControllerCfg
  init_from_cfg cfgs cache =
      let (cs, cache') = build_controllers api cfgs cache in
      (managed (ids_by_fingerprint (ok []) cs) cs, cache')

  abbrev pub attach_built :
      Result (Controller api.device)
      → HardwareFingerprint
      → ControllerManager (quad_controller api.device)
      → Result (Unit {0}) × ControllerManager (quad_controller api.device)
  attach_built (ok c) f m = (ok tt, attach (quad_controller api.device) f c m)
  attach_built (err e) f m = (err e, m)
  attach_built panic f m = (panic, m)

  unfoldable pub device_connected :
      HardwareFingerprint
      → ControllerManager (quad_controller api.device)
      → Dict HardwareFingerprint ControllerCfg
      → Result (Unit {0})
        × ControllerManager (quad_controller api.device)
        × Dict HardwareFingerprint ControllerCfg
  device_connected f m cache =
      let (built, cache') = build_controller_from_fingerprint api f cache in
      let (r, m') = attach_built built f m in (r, m', cache')
