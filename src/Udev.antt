-- ===== src/Udev.antt =====
-- providers/udev_watcher.rs: hotplug events of the kernel, and the notifications they become. The
-- values of attributes are `OsStr`s, which are parameters with their conversions; text is a list of its
-- code points where the program walks it.
pub mod Ids
pub mod Published
pub mod Service
pub mod Replug
use tt_riingd.Common.{
  or_else, ℕ, zero, suc, ◌+◌, ◌*◌, ◌-◌, List, [], ◌∷◌, ◌++◌, String, Option, none, some, Bool, true,
  false, ◌&&◌, Result, ok, err, if◌then◌else◌, eqb, leb, ltb, udev_error,
}
use tt_riingd.Registry.{is_supported_hardware}
use tt_riingd.Event.{Event, device_connected, device_disconnected}

-- `trim_start_matches` of `0` and the given letter: as often as they stand there.
unfoldable pub trim_start : ℕ → List ℕ → List ℕ
trim_start x [] = []
trim_start x (a ∷ []) = a ∷ []
trim_start x (a ∷ b ∷ s) =
    let rest = trim_start x s in if eqb a b'0' && eqb b x then rest else a ∷ b ∷ s

-- `to_digit(16)`.
unfoldable pub hex_value : ℕ → Option ℕ
hex_value c =
    if leb b'0' c && leb c b'9'
    then some (c - 48)
    else (if leb b'a' c && leb c b'f'
        then some (c - 87)
        else (if leb b'A' c && leb c b'F' then some (c - 55) else none))

-- `u16::from_str_radix(s, 16).ok()`: a digit, with the checks for overflow.
abbrev pub push_digit : Option ℕ → Option ℕ → Option ℕ
push_digit (some acc) (some d) = if ltb (acc * 16 + d) 65536 then some (acc * 16 + d) else none
push_digit (some acc) none = none
push_digit none d = none

unfoldable pub from_digits : Option ℕ → List ℕ → Option ℕ
unfolding hex_value
from_digits acc [] = acc
from_digits acc (c ∷ s) = from_digits (push_digit acc (hex_value c)) s

abbrev pub from_signed : Bool → ℕ → List ℕ → Option ℕ
from_signed true c [] = none
from_signed true c (d ∷ s) = from_digits (some 0) (d ∷ s)
from_signed false c s = from_digits (some 0) (c ∷ s)

unfoldable pub from_str_radix : List ℕ → Option ℕ
unfolding from_digits
from_str_radix [] = none
from_str_radix (c ∷ s) = from_signed (eqb c b'+') c s

unfoldable pub parse_id : List ℕ → Option ℕ
unfolding trim_start from_str_radix
parse_id s = from_str_radix (trim_start b'X' (trim_start b'x' s))

pub data EventType : Type 0 where
  add remove change bind unbind other : EventType

pub record UdevEventInfo : Type 0 where
  pub event_type : EventType
  pub vendor_id : ℕ
  pub product_id : ℕ
  pub serial : Option String

-- `notify` by `handle_udev_event_info`; the other events are logged.
unfoldable pub handle_udev_event_info : {F : Type 0} → UdevEventInfo → List (Event F)
handle_udev_event_info i = elim i.event_type [
  | add ↦ device_connected i.vendor_id i.product_id i.serial ∷ []
  | remove ↦ device_disconnected i.vendor_id i.product_id i.serial ∷ []
  | change ↦ []
  | bind ↦ []
  | unbind ↦ []
  | other ↦ []
]

module _ {OsStr : Type 0} (to_str : OsStr → Option (List ℕ))
    (to_string_lossy : OsStr → String) where
  -- What `usb_ids` asks of one device; `Device` is a device with its parents.
  pub record Level : Type 0 where
    pub id_vendor : Option OsStr
    pub id_vendor_id : Option OsStr
    pub id_product : Option OsStr
    pub id_model_id : Option OsStr
    pub id_serial_short : Option OsStr
    pub serial : Option OsStr

  abbrev pub Device : Type 0
  Device = List Level

  abbrev pub Ids : Type 0
  Ids = ℕ × ℕ × Option String

  abbrev pub lossy : Option OsStr → Option String
  lossy none = none
  lossy (some s) = some (to_string_lossy s)

  -- Ids that could be parsed.
  abbrev pub both_parsed : Option ℕ → Option ℕ → Option String → Option Ids
  both_parsed (some v) (some p) sn = some (v, p, sn)
  both_parsed (some v) none sn = none
  both_parsed none p sn = none

  abbrev pub ids_of_text : Option (List ℕ) → Option (List ℕ) → Option String → Option Ids
  ids_of_text (some v) (some p) sn = both_parsed (parse_id v) (parse_id p) sn
  ids_of_text (some v) none sn = none
  ids_of_text none p sn = none

  -- A level with both ids decides; without them, the parents are asked.
  abbrev pub ids_at : Option OsStr → Option OsStr → Option String → Option Ids → Option Ids
  ids_at (some v) (some p) sn above = ids_of_text (to_str v) (to_str p) sn
  ids_at (some v) none sn above = above
  ids_at none p sn above = above

  unfoldable pub usb_ids : Device → Option Ids
  unfolding parse_id
  usb_ids [] = none
  usb_ids (l ∷ parents) =
      ids_at (or_else l.id_vendor l.id_vendor_id) (or_else l.id_product l.id_model_id)
        (lossy (or_else l.id_serial_short l.serial)) (usb_ids parents)

  abbrev pub or_zero : Option Ids → Ids
  or_zero none = (0, 0, none)
  or_zero (some ids) = ids

  -- One event of the monitor: hardware that is not supported is left out.
  abbrev pub info_of : EventType → Ids → List UdevEventInfo
  info_of t (vid, pid, sn) =
      if is_supported_hardware vid pid
      then record { event_type = t; vendor_id = vid; product_id = pid; serial = sn } ∷ []
      else []

  -- The loop of `blocking_udev_monitor` over what the socket yields (`none` is an error, which ends it),
  -- with what it sends, and the outcome.
  unfoldable pub monitor :
      List (Option (EventType × Device)) → List UdevEventInfo × Result (Unit {0})
  unfolding usb_ids
  monitor [] = ([], ok tt)
  monitor (none ∷ events) = ([], err udev_error)
  monitor (some (t, d) ∷ events) =
      let (sent, r) = monitor events in (info_of t (or_zero (usb_ids d)) ++ sent, r)

-- The loop of `run_udev_watcher_service` over the infos of its channel.
unfoldable pub publish : {F : Type 0} → List UdevEventInfo → List (Event F)
unfolding handle_udev_event_info
publish [] = []
publish (i ∷ infos) = handle_udev_event_info i ++ publish infos
