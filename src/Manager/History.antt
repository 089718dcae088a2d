-- ===== src/Manager/History.antt =====
-- What happens to a manager while it runs, and the invariant. Batches leave the table of the controllers, and the numbers of the workers, as they are.
use tt_riingd.Common.{
  ℕ, ◌≡◌, refl, ◌∙◌, ◌+◌, ◌<◌, insert, List, [], ◌∷◌, String, Option, none, some, Dict, lookup,
  string_eq, nat_eq, arith,
}
use tt_riingd.Hid.{HardwareFingerprint}
use tt_riingd.Worker.{
  FanController, WorkerManager, Worker, Command, init, get_firmware, set_speeds, set_colors,
  request, try_request, offer_found, worker_count, led_count, stop, turn,
}
use tt_riingd.Worker.Pool.{IsPool, replace-IsPool, request-IsPool}
use tt_riingd.Batch.{
  count_up, update_one, send_one, update_blocking, update_forgetting, ask_workers,
}
use tt_riingd.Manager.{
  ControllerManager, ExecutionMode, blocking, fire_and_forget, BatchCommand, batch_colors,
  batch_speeds, batch_init, batch_firmwares, update_entries, handle_init, handle_firmware_versions,
  batch_update, count_leds, stop_found, manager_led_count, attach, device_disconnected,
  stop_controller_worker,
}
use tt_riingd.Manager.Validity.{IsValid, request-next, attach-IsValid, device_disconnected-IsValid}

module _ {C : FanController} where
  -- The pool stays one, with as many workers.
  abbrev Keeps : WorkerManager C → WorkerManager C → Type 0
  Keeps wm wm' = IsPool wm → IsPool wm' × (wm'.next_worker_id ≡ wm.next_worker_id)

  Keeps-refl : (wm : WorkerManager C) → Keeps wm wm
  Keeps-refl wm p = (p, refl)

  Keeps-trans : {wm wm' wm'' : WorkerManager C} → Keeps wm wm' → Keeps wm' wm'' → Keeps wm wm''
  Keeps-trans f g p = let (p', e) = f p in let (p'', e') = g p' in (p'', e' ∙ e)

  request-Keeps : (id : ℕ) (cmd : Command) (wm : WorkerManager C) → Keeps wm (request C id cmd wm).1
  request-Keeps id cmd wm p = ((request-IsPool id cmd wm p).0, request-next id cmd wm)

  offer_found-next :
      (o : Option (Worker C)) (id : ℕ) (cmd : Command) (wm : WorkerManager C)
      → (offer_found C o id cmd wm).1.next_worker_id ≡ wm.next_worker_id
  offer_found-next none id cmd wm = refl
  offer_found-next (some w) id cmd wm = refl

  try_request-Keeps :
      (id : ℕ) (cmd : Command) (wm : WorkerManager C) → Keeps wm (try_request C id cmd wm).1
  unfolding try_request
  try_request-Keeps id cmd wm p =
      ((request-IsPool id cmd wm p).1, offer_found-next (lookup id wm.workers) id cmd wm)

  update_one-Keeps :
      (o : Option (Option ℕ)) (id : String) (cmd : Command) (wm : WorkerManager C)
      → Keeps wm (update_one C o id cmd wm).1
  update_one-Keeps none id cmd wm = Keeps-refl wm
  update_one-Keeps (some none) id cmd wm = Keeps-refl wm
  update_one-Keeps (some (some worker)) id cmd wm = request-Keeps worker cmd wm

  send_one-Keeps :
      (o : Option (Option ℕ)) (id : String) (cmd : Command) (wm : WorkerManager C)
      → Keeps wm (send_one C o id cmd wm).1
  send_one-Keeps none id cmd wm = Keeps-refl wm
  send_one-Keeps (some none) id cmd wm = Keeps-refl wm
  send_one-Keeps (some (some worker)) id cmd wm = try_request-Keeps worker cmd wm

  ask_workers-Keeps :
      (cmd : Command) (ids : List ℕ) (wm : WorkerManager C) → Keeps wm (ask_workers C cmd ids wm).1
  unfolding ask_workers
  ask_workers-Keeps cmd [] wm = Keeps-refl wm
  ask_workers-Keeps cmd (id ∷ ids) wm =
      Keeps-trans (request-Keeps id cmd wm) (ask_workers-Keeps cmd ids (request C id cmd wm).1)

  module _ {B : Type 0} (command : B → Command) (ids : Dict String (Option ℕ)) where
    update_blocking-Keeps :
        (entries : Dict String B) (wm : WorkerManager C)
        → Keeps wm (update_blocking C command ids entries wm).1
    unfolding update_blocking
    update_blocking-Keeps [] wm = Keeps-refl wm
    update_blocking-Keeps ((id, batch) ∷ entries) wm =
        let o = lookup id ids in
        Keeps-trans (update_one-Keeps o id (command batch) wm)
          (update_blocking-Keeps entries (update_one C o id (command batch) wm).1)

    update_forgetting-Keeps :
        (entries : Dict String B) (wm : WorkerManager C)
        → Keeps wm (update_forgetting C command ids entries wm).1
    unfolding update_forgetting
    update_forgetting-Keeps [] wm = Keeps-refl wm
    update_forgetting-Keeps ((id, batch) ∷ entries) wm =
        let o = lookup id ids in
        Keeps-trans (send_one-Keeps o id (command batch) wm)
          (update_forgetting-Keeps entries (send_one C o id (command batch) wm).1)

  with_workers-IsValid :
      (m : ControllerManager C) (wm : WorkerManager C)
      → Keeps m.worker_manager wm
      → IsValid m
      → IsValid (record m { worker_manager = wm })
  with_workers-IsValid m wm keeps v =
      let (p, e) = keeps v.pool in
      record {
        pool = p;
        assigned = λ id worker h. ground (arith, v.assigned id worker h, e);
        distinct = v.distinct;
      }

  update_entries-IsValid :
      {B : Type 0} (mode : ExecutionMode) (command : B → Command) (entries : Dict String B)
      (m : ControllerManager C)
      → IsValid m
      → IsValid (update_entries C mode command entries m).1
  unfolding update_entries
  update_entries-IsValid blocking command entries m =
      let ids = m.controller_id2worker_id in
      with_workers-IsValid m (update_blocking C command ids entries m.worker_manager).1
        (update_blocking-Keeps command ids entries m.worker_manager)
  update_entries-IsValid fire_and_forget command entries m =
      let ids = m.controller_id2worker_id in
      with_workers-IsValid m (update_forgetting C command ids entries m.worker_manager).1
        (update_forgetting-Keeps command ids entries m.worker_manager)

  asked-IsValid :
      (cmd : Command) (m : ControllerManager C)
      → let ids = count_up 1 (worker_count C m.worker_manager) in
        IsValid m
        → IsValid (record m { worker_manager = (ask_workers C cmd ids m.worker_manager).1 })
  asked-IsValid cmd m =
      let ids = count_up 1 (worker_count C m.worker_manager) in
      with_workers-IsValid m (ask_workers C cmd ids m.worker_manager).1
        (ask_workers-Keeps cmd ids m.worker_manager)

  batch_update-IsValid :
      (batch : BatchCommand) (mode : ExecutionMode) (m : ControllerManager C)
      → IsValid m
      → IsValid (batch_update C batch mode m).1
  unfolding batch_update handle_init handle_firmware_versions
  batch_update-IsValid (batch_colors entries) mode m =
      update_entries-IsValid mode set_colors entries m
  batch_update-IsValid (batch_speeds entries) mode m =
      update_entries-IsValid mode set_speeds entries m
  batch_update-IsValid batch_init mode m = asked-IsValid init m
  batch_update-IsValid batch_firmwares mode m = asked-IsValid get_firmware m

  count_leds-IsValid :
      (o : Option (Option ℕ)) (m : ControllerManager C) → IsValid m → IsValid (count_leds C o m).1
  count_leds-IsValid none m v = v
  count_leds-IsValid (some none) m v = v
  count_leds-IsValid (some (some worker)) m v =
      with_workers-IsValid m (request C worker led_count m.worker_manager).1
        (request-Keeps worker led_count m.worker_manager) v

  stop_found-IsValid :
      (o : Option (Option ℕ)) (m : ControllerManager C) → IsValid m → IsValid (stop_found C o m).1
  stop_found-IsValid none m v = v
  stop_found-IsValid (some none) m v = v
  stop_found-IsValid (some (some worker)) m v =
      with_workers-IsValid m (request C worker stop m.worker_manager).1
        (request-Keeps worker stop m.worker_manager) v

module _ (C : FanController) where
  abbrev pub with_turn : ℕ → Worker C → ControllerManager C → ControllerManager C
  with_turn k w m =
      let wm = m.worker_manager in
      record m { worker_manager = record wm { workers = insert k (turn C w) wm.workers } }

-- What the manager is asked for while it runs. The wrap of the worker numbers at 32 bits is out of
-- reach of a device that is attached.
pub data Step (C : FanController) : ControllerManager C → ControllerManager C → Type 0 where
  batched :
      (batch : BatchCommand) (mode : ExecutionMode) (m : ControllerManager C)
      → Step C m (batch_update C batch mode m).1
  counted : (id : String) (m : ControllerManager C) → Step C m (manager_led_count C id m).1
  plugged :
      (f : HardwareFingerprint) (c : C.State) (m : ControllerManager C)
      → m.worker_manager.next_worker_id + 1 < 4294967296
      → Step C m (attach C f c m)
  unplugged :
      (f : HardwareFingerprint) (m : ControllerManager C) → Step C m (device_disconnected C f m).1
  stopped : (id : String) (m : ControllerManager C) → Step C m (stop_controller_worker C id m).1
  -- A worker's task takes a command on its own.
  turned :
      (k : ℕ) (w : Worker C) (m : ControllerManager C)
      → lookup k m.worker_manager.workers ≡ some w
      → Step C m (with_turn C k w m)

pub data Reach (C : FanController) (m : ControllerManager C) : ControllerManager C → Type 0 where
  here : Reach C m m
  next : {m' m'' : ControllerManager C} → Reach C m m' → Step C m' m'' → Reach C m m''

module _ {C : FanController} where
  Step-IsValid : {m m' : ControllerManager C} → Step C m m' → IsValid m → IsValid m'
  unfolding manager_led_count stop_controller_worker
  Step-IsValid (batched batch mode m) v = batch_update-IsValid batch mode m v
  Step-IsValid (counted id m) v = count_leds-IsValid (lookup id m.controller_id2worker_id) m v
  Step-IsValid (plugged f c m small) v = attach-IsValid f c m v small
  Step-IsValid (unplugged f m) v = device_disconnected-IsValid f m v
  Step-IsValid (stopped id m) v = stop_found-IsValid (lookup id m.controller_id2worker_id) m v
  Step-IsValid (turned k w m e) v =
      with_workers-IsValid m (with_turn C k w m).worker_manager
        (λ p. (replace-IsPool k w (turn C w) m.worker_manager e p, refl)) v

  -- In each state that batches, requests, hotplug and the turns of the tasks lead to from a valid
  -- one, in whatever order they come, the ids name workers of the pool and no worker has two ids.
  pub Reach-IsValid : {m m' : ControllerManager C} → Reach C m m' → IsValid m → IsValid m'
  Reach-IsValid here v = v
  Reach-IsValid (next r s) v = Step-IsValid s (Reach-IsValid r v)
