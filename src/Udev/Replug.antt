-- ===== src/Udev/Replug.antt =====
-- A device that is plugged in again and again, from what the kernel reports to the workers: the udev watcher,
-- its notifications, and the main loop that receives them.
use tt_riingd.Common.{
  ℕ, zero, suc, ◌≡◌, ap, sym, ◌∙◌, List, [], ◌∷◌, ◌++◌, append-nil, String, Option, none, some,
  true, Result, ok, lookup,
}
use tt_riingd.Hid.{fingerprint_eq}
use tt_riingd.Config.{Config, ControllerCfg}
use tt_riingd.Quad.{Controller}
use tt_riingd.Registry.{HidApi, is_supported_hardware, build_one_controller}
use tt_riingd.Event.{Services, device_connected, device_disconnected}
use tt_riingd.Tasks.{TaskEnd}
use tt_riingd.Udev.{
  EventType, add, remove, Device, usb_ids, monitor, publish, handle_udev_event_info,
}
use tt_riingd.Udev.Published.{published, published_first}
use tt_riingd.Udev.Service.{
  Watch, Turn, socket, fresh_watch, run_udev_watcher_service, run_udev_watcher_service-flows,
}
use tt_riingd.Coordinator.MainLoop.{SystemCoordinator, delivered, run_main_loop}
use tt_riingd.Coordinator.Replug.{shown, IsPluggedIn, hotplugged, hotplugged-IsPluggedIn}

module _ {OsStr : Type 0} (to_str : OsStr → Option (List ℕ)) (to_string_lossy : OsStr → String)
    (here gone : Device to_str to_string_lossy) where
  -- What the socket yields when the device comes, and `n` times goes and comes back. A device
  -- that is gone may show its ids in other attributes.
  abbrev pub reported : ℕ → List (Option (EventType × Device to_str to_string_lossy))
  reported zero = some (add, here) ∷ []
  reported (suc n) = some (add, here) ∷ some (remove, gone) ∷ reported n

  module _ {F : Type 0} (vid pid : ℕ) (sn : Option String)
      (comes : usb_ids to_str to_string_lossy here ≡ some (vid, pid, sn))
      (goes : usb_ids to_str to_string_lossy gone ≡ some (vid, pid, sn))
      (supported : is_supported_hardware vid pid ≡ true) where
    published-reported :
        (n : ℕ) → published to_str to_string_lossy F (reported n) ≡ hotplugged vid pid sn n
    unfolding publish monitor handle_udev_event_info
    published-reported zero =
        published_first to_str to_string_lossy F add here [] vid pid sn comes supported
    published-reported (suc n) =
        published_first to_str to_string_lossy F add here (some (remove, gone) ∷ reported n) vid pid
          sn comes supported
        ∙ ap (λ l. device_connected vid pid sn ∷ l)
            (published_first to_str to_string_lossy F remove gone (reported n) vid pid sn goes
                supported
              ∙ ap (λ l. device_disconnected vid pid sn ∷ l) (published-reported n))

    -- Whatever turns the watcher's thread and loop take while the kernel reports that, a watcher that has
    -- handled all that it found has published just these arrivals and departures.
    watched-hotplugged :
        (n : ℕ) (turns : List (Turn to_str to_string_lossy))
        → socket to_str to_string_lossy turns ≡ reported n
        → let w : Watch F = run_udev_watcher_service to_str to_string_lossy turns fresh_watch in
          w.queue ≡ [] → w.published ≡ hotplugged vid pid sn n
    unfolding publish
    watched-hotplugged n turns reports handled =
        let w : Watch F = run_udev_watcher_service to_str to_string_lossy turns fresh_watch in
        sym (append-nil w.published)
        ∙ ap (λ q. w.published ++ publish q) (sym handled)
        ∙ run_udev_watcher_service-flows to_str to_string_lossy turns
        ∙ ap (λ l. published to_str to_string_lossy F l) reports
        ∙ published-reported n

    -- From the kernel to the worker: a supported device whose fingerprint the registry's cache has,
    -- with an entry that can be built, comes, and any number of times goes and comes back, where
    -- each event of the kernel, those of its departures too, still shows the same vendor, product
    -- and serial number. Once the watcher has handled what it found, in whatever turns with its
    -- thread, and the main loop of an initialized daemon has received what it published, the loop
    -- goes on, the cache is as it was, and the controller has a worker that waits for commands and
    -- answers.
    pub replugged-IsPluggedIn :
        (api : HidApi) (from_str : String → Result (Config F)) (S : Services F)
        (content : Result String) (ends : ℕ → TaskEnd) (cfg : ControllerCfg)
        (c : Controller api.device) (n : ℕ) (turns : List (Turn to_str to_string_lossy))
        (s : SystemCoordinator api from_str S)
        → build_one_controller api cfg ≡ ok c
        → s.coordinator.initialized ≡ true
        → lookup (shown vid pid sn) s.registry ≡ some cfg
        → socket to_str to_string_lossy turns ≡ reported n
        → let w : Watch F = run_udev_watcher_service to_str to_string_lossy turns fresh_watch in
          w.queue ≡ []
          → let (r, s') =
              run_main_loop api from_str S (delivered api from_str S content ends w.published) s in
            (r ≡ none)
            × (s'.registry ≡ s.registry)
            × (s'.coordinator ≡ s.coordinator)
            × IsPluggedIn api vid pid sn c s'.controllers
    replugged-IsPluggedIn api from_str S content ends cfg c n turns s builds live cached reports
          handled =
        rw (watched-hotplugged n turns reports handled) (
          hotplugged-IsPluggedIn api from_str S content ends vid pid sn cfg c builds n s live
            cached)
