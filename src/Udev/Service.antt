-- ===== src/Udev/Service.antt =====
-- `run_udev_watcher_service` of providers/udev_watcher.rs beside its thread, `blocking_udev_monitor`: what
-- the thread finds goes through an unbounded channel to the loop, in whatever way the two take turns.
use tt_riingd.Common.{
  ℕ, String, List, [], ◌∷◌, ◌++◌, Option, none, some, Bool, true, false, ◌≡◌, refl, ap, sym, ◌∙◌,
  append_assoc, append-nil, if◌then◌else◌,
}
use tt_riingd.Event.{Event}
use tt_riingd.Udev.{
  EventType, Device, UdevEventInfo, handle_udev_event_info, info_of, or_zero, usb_ids, monitor,
  publish,
}

-- The receiver lives until the thread is joined, so a send of the thread cannot fail.
pub record Watch (F : Type 0) : Type 0 where
  pub queue : List UdevEventInfo
  pub published : List (Event F)
  pub monitor_running : Bool
  pub loop_running : Bool

module _ {F : Type 0} where
  abbrev pub fresh_watch : Watch F
  fresh_watch = record { queue = []; published = []; monitor_running = true; loop_running = true }

  -- `event_rx.recv()`: an empty channel is waited for, and is closed once the thread has ended.
  abbrev pub receive : List UdevEventInfo → Watch F → Watch F
  receive [] w = record w { loop_running = w.monitor_running }
  receive (i ∷ queue) w = record w {
    queue = queue;
    published = w.published ++ handle_udev_event_info i;
  }

  abbrev pub send_found : List UdevEventInfo → Watch F → Watch F
  send_found infos w = record w { queue = w.queue ++ infos }

  -- What was published, and what still waits.
  abbrev flows : Watch F → List (Event F)
  flows w = w.published ++ publish w.queue

  publish-append :
      (xs ys : List UdevEventInfo) → publish {F = F} (xs ++ ys) ≡ publish xs ++ publish ys
  unfolding publish
  publish-append [] ys = refl
  publish-append (i ∷ xs) ys =
      ap (λ l. handle_udev_event_info i ++ l) (publish-append xs ys)
      ∙ sym (append_assoc (handle_udev_event_info i) (publish xs) (publish ys))

  abbrev watch : List UdevEventInfo → List (Event F) → Bool → Bool → Watch F
  watch queue published m l = record {
    queue = queue;
    published = published;
    monitor_running = m;
    loop_running = l;
  }

module _ {OsStr : Type 0} (to_str : OsStr → Option (List ℕ))
    (to_string_lossy : OsStr → String) where
  -- One turn of the thread, or of the loop of the service.
  pub data Turn : Type 0 where
    yielded : (event_type : EventType) (device : Device to_str to_string_lossy) → Turn
    failed : Turn
    monitor_cancelled : Turn
    received : Turn
    cancelled : Turn

  abbrev pub found : EventType → Device to_str to_string_lossy → List UdevEventInfo
  found t d =
      info_of to_str to_string_lossy t
        (or_zero to_str to_string_lossy (usb_ids to_str to_string_lossy d))

  -- What the socket yields to the thread, until it ends.
  abbrev pub socket : List Turn → List (Option (EventType × Device to_str to_string_lossy))
  socket [] = []
  socket (yielded t d ∷ turns) = some (t, d) ∷ socket turns
  socket (failed ∷ turns) = none ∷ []
  socket (monitor_cancelled ∷ turns) = []
  socket (received ∷ turns) = socket turns
  socket (cancelled ∷ turns) = socket turns

  module _ {F : Type 0} where
    unfoldable pub turn : Turn → Watch F → Watch F
    unfolding usb_ids handle_udev_event_info
    turn (yielded t d) w = if w.monitor_running then send_found (found t d) w else w
    turn failed w = record w { monitor_running = false }
    turn monitor_cancelled w = record w { monitor_running = false }
    turn received w = if w.loop_running then receive w.queue w else w
    turn cancelled w = record w { loop_running = false }

    unfoldable pub run_udev_watcher_service : List Turn → Watch F → Watch F
    unfolding turn
    run_udev_watcher_service [] w = w
    run_udev_watcher_service (t ∷ turns) w = run_udev_watcher_service turns (turn t w)

    -- What the thread still finds, if it runs.
    abbrev coming : Bool → List Turn → List (Event F)
    coming true turns = publish (monitor to_str to_string_lossy (socket turns)).0
    coming false turns = []

    -- A turn moves what flows, and neither loses nor adds anything.
    turn-flows :
        (t : Turn) (turns : List Turn) (queue : List UdevEventInfo) (published : List (Event F))
        (m l : Bool)
        → flows (turn t (watch queue published m l))
            ++ coming (turn t (watch queue published m l)).monitor_running turns
          ≡ flows (watch queue published m l) ++ coming m (t ∷ turns)
    unfolding turn monitor publish
    turn-flows (yielded t d) turns queue published true l =
        ap (λ x. (published ++ x) ++ coming true turns) (publish-append queue (found t d))
        ∙ ap (λ x. x ++ coming true turns)
            (sym (append_assoc published (publish queue) (publish (found t d))))
        ∙ append_assoc (published ++ publish queue) (publish (found t d)) (coming true turns)
        ∙ ap (λ x. (published ++ publish queue) ++ x)
            (sym (publish-append (found t d) (monitor to_str to_string_lossy (socket turns)).0))
    turn-flows (yielded t d) turns queue published false l = refl
    turn-flows failed turns queue published true l = refl
    turn-flows failed turns queue published false l = refl
    turn-flows monitor_cancelled turns queue published true l = refl
    turn-flows monitor_cancelled turns queue published false l = refl
    turn-flows received turns [] published true true = refl
    turn-flows received turns [] published false true = refl
    turn-flows received turns (i ∷ queue) published true true =
        ap (λ x. x ++ coming true turns)
          (append_assoc published (handle_udev_event_info i) (publish queue))
    turn-flows received turns (i ∷ queue) published false true =
        ap (λ x. x ++ []) (append_assoc published (handle_udev_event_info i) (publish queue))
    turn-flows received turns queue published true false = refl
    turn-flows received turns queue published false false = refl
    turn-flows cancelled turns queue published true l = refl
    turn-flows cancelled turns queue published false l = refl

    none_left : (b : Bool) → coming b [] ≡ []
    unfolding monitor publish
    none_left true = refl
    none_left false = refl

    run-flows :
        (turns : List Turn) (w : Watch F)
        → flows (run_udev_watcher_service turns w) ≡ flows w ++ coming w.monitor_running turns
    unfolding run_udev_watcher_service
    run-flows [] w =
        sym (append-nil (flows w)) ∙ ap (λ x. flows w ++ x) (sym (none_left w.monitor_running))
    run-flows (t ∷ turns) w =
        run-flows turns (turn t w)
        ∙ turn-flows t turns w.queue w.published w.monitor_running w.loop_running

    -- Whatever turns the thread and the loop take, what is published, with what still waits in the
    -- channel behind it, is just what the thread found until it ended, in its order.
    pub run_udev_watcher_service-flows :
        (turns : List Turn)
        → let w : Watch F = run_udev_watcher_service turns fresh_watch in
          w.published ++ publish w.queue ≡ publish (monitor to_str to_string_lossy (socket turns)).0
    unfolding publish
    run_udev_watcher_service-flows turns = run-flows turns fresh_watch
