-- ===== src/Manager/Hotplug.antt =====
-- A device that comes and goes.
use tt_riingd.Common.{
  ℕ, ◌≡◌, refl, ap, ◌∙◌, String, none, some, Result, ok, err, panic, worker_stopped,
  unknown_fingerprint, string_eq, nat_eq, ==_refl, lookup, insert, lookup-insert,
}
use tt_riingd.Hid.{HardwareFingerprint, fingerprint_eq}
use tt_riingd.Worker.{
  FanController, WorkerManager, Reply, done, stop, new_worker, start_worker, request, call, drain,
  serve, handle,
}
use tt_riingd.Worker.Pool.{request-found}
use tt_riingd.Manager.{
  ControllerManager, attach, device_disconnected, disconnect_found, disconnect_controller,
  forget_stopped, manager_led_count, count_leds,
}

stops : (C : FanController) (c : C.State) → (call C stop (new_worker C c)).0 ≡ ok done
unfolding call drain serve handle
stops C c = refl

module _ {C : FanController} where
  pub attached_fingerprint :
      (f : HardwareFingerprint) (c : C.State) (m : ControllerManager C)
      → lookup f (attach C f c m).fingerprint2controller_id ≡ some (C.get_id c)
  unfolding attach
  attached_fingerprint f c m =
      lookup-insert f f (C.get_id c) m.fingerprint2controller_id ∙ rw (==_refl f) refl

  pub attached_id :
      (f : HardwareFingerprint) (c : C.State) (m : ControllerManager C)
      → lookup (C.get_id c) (attach C f c m).controller_id2worker_id
        ≡ some (some m.worker_manager.next_worker_id)
  unfolding attach start_worker
  attached_id f c m =
      lookup-insert (C.get_id c) (C.get_id c) (some m.worker_manager.next_worker_id)
        m.controller_id2worker_id
      ∙ rw (==_refl (C.get_id c)) refl

  pub attached_worker :
      (f : HardwareFingerprint) (c : C.State) (m : ControllerManager C)
      → lookup m.worker_manager.next_worker_id (attach C f c m).worker_manager.workers
        ≡ some (new_worker C c)
  unfolding attach start_worker
  attached_worker f c m =
      let next = m.worker_manager.next_worker_id in
      lookup-insert next next (new_worker C c) m.worker_manager.workers ∙ rw (==_refl next) refl

  -- A manager in which the controller `id` has no worker.
  forgotten :
      (r : Result Reply × WorkerManager C) (id : String) (m : ControllerManager C) (a : Reply)
      → r.0 ≡ ok a
      → let (answer, gone) = forget_stopped C r id m in
        (answer ≡ ok tt)
        × (lookup id gone.controller_id2worker_id ≡ some none)
        × (manager_led_count C id gone ≡ (err worker_stopped, gone))
  unfolding manager_led_count
  forgotten (ok b, wm) id m a e =
      let none_left : lookup id (insert id none m.controller_id2worker_id) ≡ some none =
        lookup-insert id id none m.controller_id2worker_id ∙ rw (==_refl id) refl in
      (refl, none_left, ap (λ o. count_leds C o (forget_stopped C (ok b, wm) id m).1) none_left)
  forgotten (err x, wm) id m a e = absurd (cc)
  forgotten (panic, wm) id m a e = absurd (cc)

  disconnect-eq :
      (f : HardwareFingerprint) (id : String) (worker : ℕ) (m : ControllerManager C)
      → lookup f m.fingerprint2controller_id ≡ some id
      → lookup id m.controller_id2worker_id ≡ some (some worker)
      → device_disconnected C f m ≡ forget_stopped C (request C worker stop m.worker_manager) id m
  unfolding device_disconnected
  disconnect-eq f id worker m known assigned =
      ap (λ o. disconnect_found C o m) known ∙ ap (λ o. disconnect_controller C o id m) assigned

  pub attach-device_disconnected :
      (f : HardwareFingerprint) (c : C.State) (m : ControllerManager C)
      → let (answer, gone) = device_disconnected C f (attach C f c m) in
        (answer ≡ ok tt)
        × (lookup (C.get_id c) gone.controller_id2worker_id ≡ some none)
        × (manager_led_count C (C.get_id c) gone ≡ (err worker_stopped, gone))
  attach-device_disconnected f c m =
      let m' = attach C f c m in
      let next = m.worker_manager.next_worker_id in
      let asked =
        ap (λ r. r.0)
          (request-found next stop m'.worker_manager (new_worker C c) (attached_worker f c m))
        ∙ stops C c in
      rw (disconnect-eq f (C.get_id c) next m' (attached_fingerprint f c m) (attached_id f c m))
        (forgotten (request C next stop m'.worker_manager) (C.get_id c) m' done asked)

  -- A device whose fingerprint the manager does not know cannot be disconnected: that is an error,
  -- and nothing changes.
  pub device_disconnected_unknown :
      (f : HardwareFingerprint) (m : ControllerManager C)
      → lookup f m.fingerprint2controller_id ≡ none
      → device_disconnected C f m ≡ (err unknown_fingerprint, m)
  unfolding device_disconnected
  device_disconnected_unknown f m h = ap (λ o. disconnect_found C o m) h
