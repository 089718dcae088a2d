-- ===== src/Manager/Validity.antt =====
-- The invariant of `ControllerManager`: the ids name workers of the pool, and no worker has two ids.
use tt_riingd.Common.{
  ℕ, ◌+◌, ◌≤◌, ◌<◌, ◌≡◌, refl, String, Option, none, some, Result, ok, err, panic, string_eq,
  nat_eq, lookup, lookup-insert, arith,
}
use tt_riingd.Hid.{HardwareFingerprint, fingerprint_eq}
use tt_riingd.Worker.{
  FanController, WorkerManager, Command, Reply, stop, start_worker, request, call_found, Worker,
}
use tt_riingd.Worker.Pool.{IsPool, start_worker-IsPool, request-IsPool}
use tt_riingd.Manager.{
  ControllerManager, attach, device_disconnected, disconnect_found, disconnect_controller,
  forget_stopped,
}

module _ {C : FanController} where
  pub record IsValid (m : ControllerManager C) : Type 0 where
    pub pool : IsPool m.worker_manager
    pub assigned :
        (id : String) (worker : ℕ)
        → lookup id m.controller_id2worker_id ≡ some (some worker)
        → (1 ≤ worker) × (worker < m.worker_manager.next_worker_id)
    pub distinct :
        (a b : String) (worker : ℕ)
        → lookup a m.controller_id2worker_id ≡ some (some worker)
        → lookup b m.controller_id2worker_id ≡ some (some worker)
        → a ≡ b

  -- Attaching a device keeps the invariant, as long as the worker numbers fit 32 bits.
  pub attach-IsValid :
      (f : HardwareFingerprint) (c : C.State) (m : ControllerManager C)
      → IsValid m
      → m.worker_manager.next_worker_id + 1 < 4294967296
      → IsValid (attach C f c m)
  unfolding attach start_worker
  attach-IsValid f c m v small =
      let next = m.worker_manager.next_worker_id in
      let key = C.get_id c in
      let ids = m.controller_id2worker_id in
      record {
        pool = start_worker-IsPool c m.worker_manager v.pool small;
        assigned = λ id worker h.
            ground
              (arith, lookup-insert key id (some next) ids, v.assigned id worker, v.pool.next_pos);
        distinct = λ a b worker g h. ground (
          arith,
          lookup-insert key a (some next) ids,
          lookup-insert key b (some next) ids,
          v.assigned a worker,
          v.assigned b worker,
          v.distinct a b worker,
          string_eq.beq_iff key a,
          string_eq.beq_iff key b,
        );
      }

  call_found-next :
      (o : Option (Worker C)) (id : ℕ) (cmd : Command) (wm : WorkerManager C)
      → (call_found C o id cmd wm).1.next_worker_id ≡ wm.next_worker_id
  call_found-next none id cmd wm = refl
  call_found-next (some w) id cmd wm = refl

  pub request-next :
      (id : ℕ) (cmd : Command) (wm : WorkerManager C)
      → (request C id cmd wm).1.next_worker_id ≡ wm.next_worker_id
  unfolding request
  request-next id cmd wm = call_found-next (lookup id wm.workers) id cmd wm

  forget_stopped-IsValid :
      (r : Result Reply × WorkerManager C) (id : String) (m : ControllerManager C)
      → IsPool r.1
      → r.1.next_worker_id ≡ m.worker_manager.next_worker_id
      → IsValid m
      → IsValid (forget_stopped C r id m).1
  forget_stopped-IsValid (ok a, wm) id m p n v =
      let ids = m.controller_id2worker_id in
      record {
        pool = p;
        assigned = λ a worker h. ground (arith, lookup-insert id a none ids, v.assigned a worker);
        distinct = λ a b worker g h. ground (
          arith,
          lookup-insert id a none ids,
          lookup-insert id b none ids,
          v.distinct a b worker,
        );
      }
  forget_stopped-IsValid (err e, wm) id m p n v = record {
    pool = p;
    assigned = λ a worker h. ground (arith, v.assigned a worker);
    distinct = v.distinct;
  }
  forget_stopped-IsValid (panic, wm) id m p n v = record {
    pool = p;
    assigned = λ a worker h. ground (arith, v.assigned a worker);
    distinct = v.distinct;
  }

  disconnect_controller-IsValid :
      (o : Option (Option ℕ)) (id : String) (m : ControllerManager C)
      → IsValid m
      → IsValid (disconnect_controller C o id m).1
  disconnect_controller-IsValid none id m v = v
  disconnect_controller-IsValid (some none) id m v = v
  disconnect_controller-IsValid (some (some worker)) id m v =
      forget_stopped-IsValid (request C worker stop m.worker_manager) id m
        (request-IsPool worker stop m.worker_manager v.pool).0
        (request-next worker stop m.worker_manager) v

  disconnect_found-IsValid :
      (o : Option String) (m : ControllerManager C) → IsValid m → IsValid (disconnect_found C o m).1
  disconnect_found-IsValid none m v = v
  disconnect_found-IsValid (some id) m v =
      disconnect_controller-IsValid (lookup id m.controller_id2worker_id) id m v

  -- A disconnection keeps the invariant, whether it succeeds or fails.
  pub device_disconnected-IsValid :
      (f : HardwareFingerprint) (m : ControllerManager C)
      → IsValid m
      → IsValid (device_disconnected C f m).1
  unfolding device_disconnected
  device_disconnected-IsValid f m v =
      disconnect_found-IsValid (lookup f m.fingerprint2controller_id) m v
