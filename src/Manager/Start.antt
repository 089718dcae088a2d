-- ===== src/Manager/Start.antt =====
-- The manager that the daemon starts with.
use tt_riingd.Common.{
  ℕ, suc, ◌+◌, ◌≤◌, ◌<◌, ◌≡◌, refl, ◌∙◌, ◌==◌, ==_refl, true, Bool-cases, inl, inr, List, [], ◌∷◌,
  String, Option, some, Result, ok, err, panic, string_eq, nat_eq, Dict, lookup, insert,
  lookup-insert, length, arith,
}
use mathlib.Core.Path.{subst}
use tt_riingd.Hid.{HardwareFingerprint, fingerprint_eq}
use tt_riingd.Quad.{Controller}
use tt_riingd.Config.{ControllerCfg}
use tt_riingd.Registry.{HidApi, build_controllers, build_one_controller, with_built, cache_built}
use tt_riingd.Worker.{
  FanController, WorkerManager, new_manager, Worker, new_worker, start_worker, initialize,
}
use tt_riingd.Worker.Pool.{new_manager-IsPool, initialize-IsPool}
use tt_riingd.Manager.{quad_controller, ControllerManager}
use tt_riingd.Manager.Setup.{ids_by_fingerprint, workers_by_id, managed, init_from_cfg}
use tt_riingd.Manager.Validity.{IsValid}

-- The ids name workers from 1 to `last`, and no two the same.
abbrev IsNumbered : ℕ → Dict String (Option ℕ) → Type 0
IsNumbered last ids =
    ((id : String) (worker : ℕ)
      → lookup id ids ≡ some (some worker)
      → (1 ≤ worker) × (worker ≤ last))
    × ((a b : String) (worker : ℕ)
        → lookup a ids ≡ some (some worker)
        → lookup b ids ≡ some (some worker)
        → a ≡ b)

insert-IsNumbered :
    (last : ℕ) (name : String) (ids : Dict String (Option ℕ))
    → IsNumbered last ids
    → IsNumbered (suc last) (insert name (some (suc last)) ids)
insert-IsNumbered last name ids (bound, distinct) =
    let next = some (suc last) in
    (
      λ id worker h. ground (arith, lookup-insert name id next ids, bound id worker),
      λ a b worker g h. ground (
        arith,
        lookup-insert name a next ids,
        lookup-insert name b next ids,
        bound a worker,
        bound b worker,
        distinct a b worker,
        string_eq.beq_iff name a,
        string_eq.beq_iff name b,
      ),
    )

initialize-next :
    (C : FanController) (ss : List C.State) (m : WorkerManager C)
    → m.next_worker_id + length ss < 4294967296
    → (initialize C ss m).next_worker_id ≡ m.next_worker_id + length ss
unfolding initialize start_worker
initialize-next C [] m small = omega arith
initialize-next C (s ∷ ss) m small =
    omega (arith, initialize-next C ss (start_worker C s m).1 (omega arith))

-- The worker `k` runs for the controller with this id, and nothing waits for it.
abbrev pub IsReady : {C : FanController} → WorkerManager C → ℕ → String → Type 0
IsReady {C} m k id =
    (w : Worker C) × (lookup k m.workers ≡ some w)
    × (w.running ≡ true)
    × (w.queue ≡ [])
    × (C.get_id w.controller ≡ id)

-- The ids that are mapped have such workers.
abbrev pub AreReady : {C : FanController} → Dict String (Option ℕ) → WorkerManager C → Type 0
AreReady {C} ids m = (id : String) (k : ℕ) → lookup id ids ≡ some (some k) → IsReady {C = C} m k id

module _ {C : FanController} where
  new-IsReady :
      (s : C.State) (m : WorkerManager C)
      → IsReady {C = C} (start_worker C s m).1 m.next_worker_id (C.get_id s)
  unfolding start_worker
  new-IsReady s m = (
    new_worker C s,
    lookup-insert m.next_worker_id m.next_worker_id (new_worker C s) m.workers
        ∙ rw (==_refl m.next_worker_id) refl,
    refl,
    refl,
    refl,
  )

  kept-IsReady :
      (s : C.State) (m : WorkerManager C) (k : ℕ) (id : String)
      → k < m.next_worker_id
      → IsReady {C = C} m k id
      → IsReady {C = C} (start_worker C s m).1 k id
  unfolding start_worker
  kept-IsReady s m k id old (w, here, runs, idle, named) = (
    w,
    ground (arith, here, lookup-insert m.next_worker_id k (new_worker C s) m.workers),
    runs,
    idle,
    named,
  )

  started-AreReady :
      (s : C.State) (index : ℕ) (ids : Dict String (Option ℕ)) (m : WorkerManager C)
      → m.next_worker_id ≡ suc index
      → IsNumbered index ids
      → AreReady {C = C} ids m
      → AreReady {C = C} (insert (C.get_id s) (some (suc index)) ids) (start_worker C s m).1
  started-AreReady s index ids m next (bound, distinct) ready id k h =
      let found = lookup-insert (C.get_id s) id (some (suc index)) ids in
      elim (Bool-cases (C.get_id s == id)) [
        | inl e ↦
            let same : C.get_id s ≡ id = (string_eq.beq_iff (C.get_id s) id).0 e in
            let number : m.next_worker_id ≡ k = ground arith in
            subst (λ i. IsReady {C = C} (start_worker C s m).1 k i) same
              (subst (λ n. IsReady {C = C} (start_worker C s m).1 n (C.get_id s)) number
                (new-IsReady s m))
        | inr e ↦
            let old : lookup id ids ≡ some (some k) = ground arith in
            kept-IsReady s m k id (omega (arith, bound id k old)) (ready id k old)
      ]

module _ (api : HidApi) where
  workers_by_id-AreReady :
      (index : ℕ) (cs : List (Controller api.device)) (ids : Dict String (Option ℕ))
      (m : WorkerManager (quad_controller api.device))
      → m.next_worker_id ≡ suc index
      → suc index + length cs < 4294967296
      → IsNumbered index ids
      → AreReady {C = quad_controller api.device} ids m
      → AreReady {C = quad_controller api.device}
          (workers_by_id api index cs ids)
          (initialize (quad_controller api.device) cs m)
  unfolding workers_by_id initialize start_worker
  workers_by_id-AreReady index [] ids m next small n ready = ready
  workers_by_id-AreReady index (c ∷ cs) ids m next small n ready =
      let C = quad_controller api.device in
      workers_by_id-AreReady (suc index) cs (insert c.name (some (suc index)) ids)
        (start_worker C c m).1 (omega arith) (omega arith) (insert-IsNumbered index c.name ids n)
        (started-AreReady {C = C} c index ids m next n ready)

  workers_by_id-IsNumbered :
      (index : ℕ) (cs : List (Controller api.device)) (ids : Dict String (Option ℕ))
      → IsNumbered index ids
      → IsNumbered (index + length cs) (workers_by_id api index cs ids)
  unfolding workers_by_id
  workers_by_id-IsNumbered index [] ids h = (λ id worker e. omega (arith, h.0 id worker e), h.1)
  workers_by_id-IsNumbered index (c ∷ cs) ids h =
      let rest =
        workers_by_id-IsNumbered (suc index) cs (insert c.name (some (suc index)) ids)
          (insert-IsNumbered index c.name ids h) in
      (λ id worker e. omega (arith, rest.0 id worker e), rest.1)

  length-with_built :
      (r : Result (Controller api.device)) (cs : List (Controller api.device))
      → length (with_built api r cs) ≤ suc (length cs)
  length-with_built (ok c) cs = omega arith
  length-with_built (err e) cs = omega arith
  length-with_built panic cs = omega arith

  length-build_controllers :
      (cfgs : List ControllerCfg) (cache : Dict HardwareFingerprint ControllerCfg)
      → length (build_controllers api cfgs cache).0 ≤ length cfgs
  unfolding build_controllers
  length-build_controllers [] cache = omega arith
  length-build_controllers (cfg ∷ cfgs) cache =
      let created = build_one_controller api cfg in
      let cache' = cache_built api created cfg cache in
      omega (
        arith,
        length-build_controllers cfgs cache',
        length-with_built created (build_controllers api cfgs cache').0,
      )

  abbrev started_manager :
      Dict HardwareFingerprint String
      → List (Controller api.device)
      → ControllerManager (quad_controller api.device)
  started_manager known cs = record {
    worker_manager =
        initialize (quad_controller api.device) cs (new_manager (quad_controller api.device));
    controller_id2worker_id = workers_by_id api 0 cs [];
    fingerprint2controller_id = known;
  }

  no_ids-IsNumbered : IsNumbered 0 []
  unfolding lookup
  no_ids-IsNumbered = (λ id worker h. absurd (cc h), λ a b worker g h. absurd (cc g))

  started-IsValid :
      (known : Dict HardwareFingerprint String) (cs : List (Controller api.device))
      → 1 + length cs < 4294967296
      → IsValid (started_manager known cs)
  started-IsValid known cs small =
      let C = quad_controller api.device in
      let (bound, distinct) = workers_by_id-IsNumbered 0 cs [] no_ids-IsNumbered in
      record {
        pool = initialize-IsPool cs (new_manager C) new_manager-IsPool small;
        assigned = λ id worker h.
            omega (arith, bound id worker h, initialize-next C cs (new_manager C) small);
        distinct = distinct;
      }

  none-AreReady :
      AreReady {C = quad_controller api.device} [] (new_manager (quad_controller api.device))
  unfolding lookup
  none-AreReady id k h = absurd (cc h)

  managed-IsValid :
      (known : Result (Dict HardwareFingerprint String)) (cs : List (Controller api.device))
      (m : ControllerManager (quad_controller api.device))
      → 1 + length cs < 4294967296
      → managed api known cs ≡ ok m
      → IsValid m
        × AreReady {C = quad_controller api.device} m.controller_id2worker_id m.worker_manager
  managed-IsValid (ok known) cs m small h =
      let same : started_manager known cs ≡ m = ground arith in
      let C = quad_controller api.device in
      subst (λ n. IsValid n × AreReady {C = C} n.controller_id2worker_id n.worker_manager) same
        (
          started-IsValid known cs small,
          workers_by_id-AreReady 0 cs [] (new_manager C) refl small no_ids-IsNumbered none-AreReady,
        )
  managed-IsValid (err e) cs m small h = cc
  managed-IsValid panic cs m small h = cc

  -- If the daemon starts with a manager, from a configuration of fewer than 2^32 - 1 controllers,
  -- that manager is valid: the ids name workers of the pool, no two the same. And each of these
  -- workers runs, for a controller with just that id, with nothing waiting for it. The
  -- configuration may name the same id twice, and controllers that cannot be built.
  pub init_from_cfg-IsValid :
      (cfgs : List ControllerCfg) (cache : Dict HardwareFingerprint ControllerCfg)
      (m : ControllerManager (quad_controller api.device))
      → 1 + length cfgs < 4294967296
      → (init_from_cfg api cfgs cache).0 ≡ ok m
      → IsValid m
        × AreReady {C = quad_controller api.device} m.controller_id2worker_id m.worker_manager
  unfolding init_from_cfg
  init_from_cfg-IsValid cfgs cache m small h =
      let cs = (build_controllers api cfgs cache).0 in
      managed-IsValid (ids_by_fingerprint api (ok []) cs) cs m
        (omega (arith, length-build_controllers cfgs cache)) h
