-- ===== src/Common/Results.antt =====
-- The outcome of fallible code: `anyhow::Result`, with a panic as a third outcome.
use Prim.Native.Nat.{ℕ}
use mathlib.Core.Option.{Option, none, some}

-- One constructor for each error that the modelled code makes.
pub data Error : Type 0 where
  encode_failed empty_status short_buffer incomplete_read invalid_response : Error
  no_hid_api default_failed : Error
  unsupported_version unsupported_hardware : Error
  worker_not_found channel_closed reply_lost controller_not_found worker_stopped : Error
  unknown_fingerprint unhandled not_initialized prepare_failed : Error
  curve_lengths empty_curve bezier_points no_active_curve curve_not_found large_channel no_targets
        udev_error task_panicked shutdown_timeout bus_closed shutdown_requested signal_failed
        library_not_found symbol_not_found invalid_log_target config_not_found nvml_failed no_nvml
        wrong_value no_handler :
      Error
  io_error : ℕ → Error

pub data Result {ℓ} (A : Type ℓ) : Type ℓ where
  ok : A → Result A
  err : Error → Result A
  panic : Result A

-- `?`: a failure ends the code, and so does a panic.
infixl 5 ◌>>=◌ ◌>>◌
abbrev pub ◌>>=◌ {ℓ κ} : {A : Type ℓ} {B : Type κ} (r : Result A) (next : A → Result B) → Result B
panic >>= next = panic
err reason >>= next = err reason
ok value >>= next = next value

abbrev pub ◌>>◌ {ℓ} : {B : Type ℓ} (check : Result (Unit {0})) (next : Result B) → Result B
check >> next = check >>= λ _. next

-- `ok_or_else`.
abbrev pub ok_or {ℓ} : {A : Type ℓ} → Option A → Error → Result A
ok_or none e = err e
ok_or (some a) e = ok a
