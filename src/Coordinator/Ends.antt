-- ===== src/Coordinator/Ends.antt =====
-- How the main loop ends.
use mathlib.Core.Path.{subst}
use tt_riingd.Common.{
  sym, ℕ, List, [], ◌∷◌, ◌++◌, String, Option, some, true, false, Result, ok, err, panic, ◌≡◌, refl,
  ap, ◌∙◌, Dict, if◌then◌else◌, Bool-cases, inl, inr, shutdown_requested,
}
use tt_riingd.Config.{Config}
use tt_riingd.Registry.{HidApi}
use tt_riingd.Event.{Services, system_shutdown}
use tt_riingd.Tasks.{TaskEnd, shutdown_all}
use tt_riingd.Manager.{quad_controller, manager_shutdown}
use tt_riingd.Worker
use tt_riingd.Coordinator.MainLoop.{
  received, SystemCoordinator, shutdown, handle_event, Turn, ctrl_c, event_turn, loop_on,
  run_main_loop,
}

module _ {F : Type 0} (api : HidApi) (from_str : String → Result (Config F)) (S : Services F) where
  -- The workers of a system that was initialized.
  abbrev pub workers_of :
      SystemCoordinator api from_str S → Dict ℕ (Worker.Worker (quad_controller api.device))
  workers_of s = if s.coordinator.initialized then s.controllers.worker_manager.workers else []

  -- The tasks were cancelled, and the managers hold no task and, if the system was initialized, no worker.
  abbrev pub IsDown : SystemCoordinator api from_str S → Type 0
  IsDown s = (s.task_manager.tasks ≡ []) × (s.task_manager.cancelled ≡ true) × (workers_of s ≡ [])

  shutdown-IsDown :
      (ends : ℕ → TaskEnd) (s : SystemCoordinator api from_str S)
      → IsDown (shutdown api from_str S ends s)
  unfolding shutdown shutdown_all manager_shutdown Worker.shutdown
  shutdown-IsDown ends s = elim (Bool-cases s.coordinator.initialized) [
    | inl e ↦ rw e (refl, refl, refl)
    | inr e ↦ rw e (refl, refl, refl)
  ]

  looped_ok :
      (r : Result (Unit {0})) (s : SystemCoordinator api from_str S)
      (rest : Option (Result (Unit {0})) × SystemCoordinator api from_str S)
      → (loop_on api from_str S r s rest).0 ≡ some (ok tt)
      → loop_on api from_str S r s rest ≡ rest
  looped_ok (ok t) s rest h = refl
  looped_ok (err e) s rest h = cc
  looped_ok panic s rest h = cc

  -- The main loop ends without an error only by Ctrl-C, and then the managers hold no task
  -- and no worker any more.
  pub main_loop_ok :
      (turns : List (Turn api from_str S)) (s : SystemCoordinator api from_str S)
      → (run_main_loop api from_str S turns s).0 ≡ some (ok tt)
      → ((before behind : List (Turn api from_str S)) × (ends : ℕ → TaskEnd) × (turns
            ≡ before ++ ctrl_c true ends ∷ behind))
        × IsDown (run_main_loop api from_str S turns s).1
  unfolding run_main_loop
  main_loop_ok [] s h = cc
  main_loop_ok (ctrl_c true ends ∷ turns) s h = (([], turns, ends, refl), shutdown-IsDown ends s)
  main_loop_ok (ctrl_c false ends ∷ turns) s h = cc
  main_loop_ok (event_turn content ends event ∷ turns) s h =
      let (r, s') = handle_event api from_str S content ends event s in
      let same = looped_ok r s' (run_main_loop api from_str S turns s') h in
      let ((before, behind, ends', split), down) =
        main_loop_ok turns s' (ap (λ o. o.0) (sym same) ∙ h) in
      (
        (
          event_turn content ends event ∷ before,
          behind,
          ends',
          ap (λ l. event_turn content ends event ∷ l) split,
        ),
        subst IsDown (ap (λ o. o.1) (sym same)) down,
      )

  -- A stop that is asked for by an event ends the loop with an error, although the shutdown is complete.
  pub stop-IsDown :
      (content : Result String) (ends : ℕ → TaskEnd) (turns : List (Turn api from_str S))
      (s : SystemCoordinator api from_str S)
      → let (r, s') =
          run_main_loop api from_str S
            (event_turn content ends (received system_shutdown) ∷ turns)
            s in
        (r ≡ some (err shutdown_requested)) × IsDown s'
  unfolding run_main_loop handle_event
  stop-IsDown content ends turns s = (refl, shutdown-IsDown ends s)
