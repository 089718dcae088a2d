-- ===== src/Udev/Published.antt =====
-- What the watcher publishes.
use tt_riingd.Common.{
  ℕ, List, [], ◌∷◌, ◌++◌, String, Option, none, some, true, ◌≡◌, refl, All, Has, here, there,
  Bool-cases, inl, inr, ap, sym, ◌∙◌, map, append_assoc, append-nil, All-append,
}
use tt_riingd.Registry.{is_supported_hardware}
use tt_riingd.Event.{Event, device_connected, device_disconnected}
use tt_riingd.Udev.{
  EventType, add, remove, change, bind, unbind, other, UdevEventInfo, handle_udev_event_info, Ids,
  Device, or_zero, info_of, usb_ids, monitor, publish,
}

module _ {OsStr : Type 0} (to_str : OsStr → Option (List ℕ)) (to_string_lossy : OsStr → String)
    (events : List (Option (EventType × Device to_str to_string_lossy))) where
  -- The kernel reported such an event of a device with these ids, whose hardware the registry supports.
  abbrev IsReported : EventType → ℕ → ℕ → Option String → Type 0
  IsReported t vid pid sn =
      (d : Device to_str to_string_lossy) × Has (some (t, d)) events
      × (usb_ids to_str to_string_lossy d ≡ some (vid, pid, sn))
      × (is_supported_hardware vid pid ≡ true)

  -- An arrival or a departure that the kernel reported.
  abbrev pub IsHotplug : {F : Type 0} → Event F → Type 0
  IsHotplug (device_connected vid pid sn) = IsReported add vid pid sn
  IsHotplug (device_disconnected vid pid sn) = IsReported remove vid pid sn
  IsHotplug _ = ⊥

  abbrev IsSent : UdevEventInfo → Type 0
  IsSent i = IsReported i.event_type i.vendor_id i.product_id i.serial

  handled-AreHotplug :
      (F : Type 0) (t : EventType) (vid pid : ℕ) (sn : Option String)
      → IsReported t vid pid sn
      → All (IsHotplug {F = F}) (
          handle_udev_event_info
            (record { event_type = t; vendor_id = vid; product_id = pid; serial = sn }))
  unfolding handle_udev_event_info
  handled-AreHotplug F add vid pid sn h = (h, tt)
  handled-AreHotplug F remove vid pid sn h = (h, tt)
  handled-AreHotplug F change vid pid sn h = tt
  handled-AreHotplug F bind vid pid sn h = tt
  handled-AreHotplug F unbind vid pid sn h = tt
  handled-AreHotplug F other vid pid sn h = tt

  publish-AreHotplug :
      (F : Type 0) (infos : List UdevEventInfo)
      → All IsSent infos
      → All (IsHotplug {F = F}) (publish infos)
  unfolding publish
  publish-AreHotplug F [] h = tt
  publish-AreHotplug F (i ∷ infos) (h, hs) =
      All-append IsHotplug (handle_udev_event_info i) (publish infos)
        (handled-AreHotplug F i.event_type i.vendor_id i.product_id i.serial h)
        (publish-AreHotplug F infos hs)

  info-IsSent :
      (t : EventType) (d : Device to_str to_string_lossy) (o : Option (Ids to_str to_string_lossy))
      → Has (some (t, d)) events
      → usb_ids to_str to_string_lossy d ≡ o
      → All IsSent (info_of to_str to_string_lossy t (or_zero to_str to_string_lossy o))
  unfolding is_supported_hardware
  info-IsSent t d none has ids = tt
  info-IsSent t d (some (vid, pid, sn)) has ids =
      elim (Bool-cases (is_supported_hardware vid pid)) [
        | inl e ↦ rw e ((d, has, ids, e), tt)
        | inr e ↦ rw e tt
      ]

  part-IsSent :
      (part : List (Option (EventType × Device to_str to_string_lossy)))
      → ((x : Option (EventType × Device to_str to_string_lossy)) → Has x part → Has x events)
      → All IsSent (monitor to_str to_string_lossy part).0
  unfolding monitor
  part-IsSent [] within = tt
  part-IsSent (none ∷ part) within = tt
  part-IsSent (some (t, d) ∷ part) within =
      All-append IsSent _ (monitor to_str to_string_lossy part).0
        (info-IsSent t d (usb_ids to_str to_string_lossy d) (within (some (t, d)) here) refl)
        (part-IsSent part (λ x h. within x (there h)))

  -- Whatever the kernel reports, the watcher publishes nothing but arrivals and departures that the
  -- kernel did report, each with the ids that were read of that device, of hardware that the registry
  -- supports. So a device whose ids are missing or cannot be read is left out.
  pub monitored-AreHotplug :
      (F : Type 0) → All (IsHotplug {F = F}) (publish (monitor to_str to_string_lossy events).0)
  monitored-AreHotplug F =
      publish-AreHotplug F (monitor to_str to_string_lossy events).0 (part-IsSent events (λ x h. h))

publish-append :
    (F : Type 0) (xs ys : List UdevEventInfo)
    → publish {F = F} (xs ++ ys) ≡ publish xs ++ publish ys
unfolding publish
publish-append F [] ys = refl
publish-append F (i ∷ xs) ys =
    ap (λ l. handle_udev_event_info i ++ l) (publish-append F xs ys)
    ∙ sym (append_assoc (handle_udev_event_info i) (publish xs) (publish ys))

module _ {OsStr : Type 0} (to_str : OsStr → Option (List ℕ)) (to_string_lossy : OsStr → String)
    (F : Type 0) where
  -- What is published for the events of the monitor.
  abbrev pub published : List (Option (EventType × Device to_str to_string_lossy)) → List (Event F)
  published events = publish (monitor to_str to_string_lossy events).0

  published-cons :
      (t : EventType) (d : Device to_str to_string_lossy)
      (events : List (Option (EventType × Device to_str to_string_lossy)))
      → published (some (t, d) ∷ events)
        ≡ publish (
            info_of to_str to_string_lossy t
              (or_zero to_str to_string_lossy (usb_ids to_str to_string_lossy d)))
          ++ published events
  unfolding monitor
  published-cons t d events =
      publish-append F
        (info_of to_str to_string_lossy t
          (or_zero to_str to_string_lossy (usb_ids to_str to_string_lossy d)))
        _

  -- What is published for an event of a supported device.
  abbrev pub hotplug_of : EventType → ℕ → ℕ → Option String → List (Event F)
  hotplug_of t vid pid sn =
      handle_udev_event_info
        (record { event_type = t; vendor_id = vid; product_id = pid; serial = sn })

  published_here :
      (t : EventType) (d : Device to_str to_string_lossy) (vid pid : ℕ) (sn : Option String)
      → usb_ids to_str to_string_lossy d ≡ some (vid, pid, sn)
      → is_supported_hardware vid pid ≡ true
      → publish {F = F} (
          info_of to_str to_string_lossy t
            (or_zero to_str to_string_lossy (usb_ids to_str to_string_lossy d)))
        ≡ hotplug_of t vid pid sn
  unfolding publish
  published_here t d vid pid sn ids supported =
      rw (ids, supported) (append-nil (hotplug_of t vid pid sn))

  -- The event of a supported device is published before all that come behind it.
  pub published_first :
      (t : EventType) (d : Device to_str to_string_lossy)
      (events : List (Option (EventType × Device to_str to_string_lossy))) (vid pid : ℕ)
      (sn : Option String)
      → usb_ids to_str to_string_lossy d ≡ some (vid, pid, sn)
      → is_supported_hardware vid pid ≡ true
      → published (some (t, d) ∷ events) ≡ hotplug_of t vid pid sn ++ published events
  published_first t d events vid pid sn ids supported =
      published-cons t d events
      ∙ ap (λ l. l ++ published events) (published_here t d vid pid sn ids supported)

  -- A supported device that arrives is published, in its place among the other events: whatever was
  -- published before it and is published behind it stays as it is.
  pub arrival_published :
      (before : List (EventType × Device to_str to_string_lossy))
      (d : Device to_str to_string_lossy)
      (after : List (Option (EventType × Device to_str to_string_lossy))) (vid pid : ℕ)
      (sn : Option String)
      → usb_ids to_str to_string_lossy d ≡ some (vid, pid, sn)
      → is_supported_hardware vid pid ≡ true
      → published (map (λ e. some e) before ++ some (add, d) ∷ after)
        ≡ published (map (λ e. some e) before) ++ device_connected vid pid sn ∷ published after
  unfolding publish monitor handle_udev_event_info
  arrival_published [] d after vid pid sn ids supported =
      published_first add d after vid pid sn ids supported
  arrival_published ((t, d0) ∷ before) d after vid pid sn ids supported =
      let here = publish {F = F} (
        info_of to_str to_string_lossy t
          (or_zero to_str to_string_lossy (usb_ids to_str to_string_lossy d0))) in
      let some_before = map (λ e. some e) before in
      published-cons t d0 (some_before ++ some (add, d) ∷ after)
      ∙ ap (λ l. here ++ l) (arrival_published before d after vid pid sn ids supported)
      ∙ sym (append_assoc here (published some_before) _)
      ∙ ap (λ l. l ++ device_connected vid pid sn ∷ published after)
          (sym (published-cons t d0 some_before))
