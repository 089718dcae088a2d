-- ===== src/Quad.antt =====
-- drivers/tt_riing_quad/controller.rs and ttriing_quad.rs: a TT Riing Quad controller over its HID
-- device. The mutex around the controller is held for a whole call, so a call is one step.
pub mod Compliant
pub mod Stats
pub mod Batch
use tt_riingd.Common.{
  ℕ, zero, suc, ◌-◌, ◌%◌, List, [], ◌∷◌, String, Option, none, some, Result, ok, err, panic,
  invalid_response, if◌then◌else◌, eqb, get_elem?, set,
}
use tt_riingd.Protocol.{
  Command, init, get_firmware_version, get_data, set_speed, set_rgb, Rgb, encode, Response, status,
  firmware_version, sensed, parse,
}
use tt_riingd.Hid.{HidDevice, HardwareFingerprint, Io, read, ◌>>=◌, ◌>>◌, lift}

pub record Fan : Type 0 where
  pub current_speed : ℕ  -- u8
  pub current_rpm : ℕ  -- u16

-- A status of 0xFC is the one good answer to `Init`, `SetSpeed` and `SetRgb`.
abbrev pub expect_status : Response → Result (Unit {0})
expect_status (status code) = if eqb code 0xFC then ok tt else err invalid_response
expect_status _ = err invalid_response

abbrev pub expect_version : Response → Result (ℕ × ℕ × ℕ)
expect_version (firmware_version major minor patch) = ok (major, minor, patch)
expect_version _ = err invalid_response

abbrev pub expect_data : Response → Result (ℕ × ℕ)
expect_data (sensed speed rpm) = ok (speed, rpm)
expect_data _ = err invalid_response

module _ (D : HidDevice) where
  pub record Controller : Type 0 where
    pub name : String
    pub dev : D.State
    pub fans : List Fan

  -- `Controller::request`: a packet goes out, and the answer is read into a zeroed buffer.
  unfoldable pub request : Command → Io D Response
  unfolding read
  request cmd = do pkt ← lift (encode cmd []); _ ← D.write pkt; buf ← read D; lift (parse cmd buf)

  unfoldable pub ctrl_init : Io D (Unit {0})
  ctrl_init = request init >>= λ r. lift (expect_status r)

  unfoldable pub ctrl_firmware_version : Io D (ℕ × ℕ × ℕ)
  ctrl_firmware_version = request get_firmware_version >>= λ r. lift (expect_version r)

  unfoldable pub ctrl_set_speed : ℕ → ℕ → Io D (Unit {0})
  ctrl_set_speed port speed = request (set_speed port speed) >>= λ r. lift (expect_status r)

  unfoldable pub ctrl_get_data : ℕ → Io D (ℕ × ℕ)
  ctrl_get_data port = request (get_data port) >>= λ r. lift (expect_data r)

  unfoldable pub ctrl_set_rgb : ℕ → ℕ → List Rgb → Io D (Unit {0})
  ctrl_set_rgb port mode colors = request (set_rgb port mode colors) >>= λ r. lift (expect_status r)

  -- `proccess_fan_inner`; `idx as u8` drops the high bits.
  unfoldable pub process_fan_inner : ℕ → ℕ → Io D (ℕ × ℕ)
  process_fan_inner idx speed = do _ ← ctrl_set_speed (idx % 256) speed; ctrl_get_data (idx % 256)

  unfoldable pub process_fan_inner_color : ℕ → List Rgb → Io D (Unit {0})
  process_fan_inner_color idx colors = ctrl_set_rgb (idx % 256) 0x24 colors

  -- The `map` and `collect` of `update_speed_batch`: the first failure ends it.
  unfoldable pub process_speeds : List (ℕ × ℕ) → Io D (List (ℕ × ℕ × ℕ))
  process_speeds [] = lift (ok [])
  process_speeds ((idx, speed) ∷ batch) = do
    seen ← process_fan_inner idx speed
    rest ← process_speeds batch
    lift (ok ((idx, seen.0, seen.1) ∷ rest))

  unfoldable pub process_colors : List (ℕ × List Rgb) → Io D (Unit {0})
  process_colors [] = lift (ok tt)
  process_colors ((idx, colors) ∷ batch) = do
    _ ← process_fan_inner_color idx colors
    process_colors batch

-- `guard.fans[channel - 1].update_stats(speed, rpm)`: channel 0 and a channel past the last fan
-- panic, the first by its subtraction or by the index that it wraps to.
unfoldable pub update_stats : List Fan → ℕ × ℕ × ℕ → Result (List Fan)
update_stats fans (zero, speed, rpm) = panic
update_stats fans (suc i, speed, rpm) = elim (get_elem? fans i) [
  | none ↦ panic
  | some fan ↦ ok (set fans i (record { current_speed = speed; current_rpm = rpm }))
]

-- The `for_each` over the reports: what is stored before a panic stays.
unfoldable pub update_all_stats : List Fan → List (ℕ × ℕ × ℕ) → Result (Unit {0}) × List Fan
update_all_stats fans [] = (ok tt, fans)
update_all_stats fans (seen ∷ rest) = elim (update_stats fans seen) [
  | ok fans' ↦ update_all_stats fans' rest
  | err e ↦ (err e, fans)
  | panic ↦ (panic, fans)
]

abbrev pub led_count : ℕ
led_count = 52

module _ (D : HidDevice) where
  -- Run device code on the controller's device.
  abbrev pub on_dev : {A : Type 0} → Io D A → Controller D → Result A × Controller D
  on_dev m c = let (r, dev') = m c.dev in (r, record c { dev = dev' })

  abbrev pub store_stats :
      Result (List (ℕ × ℕ × ℕ)) → Controller D → Result (Unit {0}) × Controller D
  store_stats (ok seen) c =
      let (r, fans') = update_all_stats c.fans seen in (r, record c { fans = fans' })
  store_stats (err e) c = (err e, c)
  store_stats panic c = (panic, c)

  unfoldable pub send_init : Controller D → Result (Unit {0}) × Controller D
  send_init = on_dev (ctrl_init D)

  unfoldable pub update_speed_batch : List (ℕ × ℕ) → Controller D → Result (Unit {0}) × Controller D
  update_speed_batch batch c =
      let (seen, c') = on_dev (process_speeds D batch) c in store_stats seen c'

  unfoldable pub update_color_batch :
      List (ℕ × List Rgb) → Controller D → Result (Unit {0}) × Controller D
  update_color_batch batch = on_dev (process_colors D batch)

  unfoldable pub get_version : Controller D → Result (ℕ × ℕ × ℕ) × Controller D
  get_version = on_dev (ctrl_firmware_version D)

  unfoldable pub get_fingerprint : Controller D → Result HardwareFingerprint
  get_fingerprint c = D.device_info c.dev
