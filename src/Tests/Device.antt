-- ===== src/Tests/Device.antt =====
-- A simulated TT Riing Quad controller, and the driver on it.
use tt_riingd.Common.{
  ℕ, ◌≤◌, ◌≡◌, refl, ap, List, [], ◌∷◌, ◌++◌, Option, none, some, Result, ok, panic, err, io_error,
  if◌then◌else◌, eqb, length, replicate, arith,
}
use tt_riingd.Protocol.{
  Command, init, get_firmware_version, get_data, set_speed, set_rgb, Rgb, encode, parse, rpm_of,
}
use tt_riingd.Protocol.Decoding.{decode}
use tt_riingd.Protocol.Replies.{Reply, state_reply, version_reply, data_reply, reply_bytes, Answers}
use tt_riingd.Hid.{HidDevice, HardwareFingerprint}
use tt_riingd.Quad.{
  Fan, Controller, request, process_speeds, process_fan_inner, ctrl_set_speed, ctrl_get_data,
  update_stats, update_speed_batch, update_color_batch, update_all_stats,
}
use tt_riingd.Quad.Compliant.{Compliant}
use tt_riingd.Quad.Stats.{stored, update_all_stats-eq}
use tt_riingd.Quad.Batch.{
  Acknowledges, speed_commands, obey_all, seen, update_speed_batch-eq, update_color_batch-eq,
}

-- What the simulated hardware holds: who it is, the command whose reply is due, and what it obeyed.
pub record Sim : Type 0 where
  pub identity : HardwareFingerprint
  pub due : Option Command
  pub log : List Command

-- The speed that was last set at a port, 0 before that.
abbrev pub speed_at : ℕ → List Command → ℕ
speed_at port [] = 0
speed_at port (set_speed p speed ∷ log) = if eqb p port then speed else speed_at port log
speed_at port (_ ∷ log) = speed_at port log

abbrev pub reply_to : Command → List Command → Reply
reply_to init log = state_reply 0xFC
reply_to get_firmware_version log = version_reply 1 2 3
reply_to (get_data port) log = data_reply (speed_at port log) 1200
reply_to (set_speed port speed) log = state_reply 0xFC
reply_to (set_rgb port mode colors) log = state_reply 0xFC

abbrev pub take_packet : Option Command → List ℕ → Sim → Result ℕ × Sim
take_packet none bytes s = (err (io_error 5), s)
take_packet (some cmd) bytes s = (ok (length bytes), record s { due = some cmd })

abbrev pub give_reply : Option Command → Sim → Result (List ℕ) × Sim
give_reply none s = (ok [], s)
give_reply (some cmd) s = (
  ok (reply_bytes 0x33 0 (reply_to cmd s.log) ++ 0 ∷ []),
  record s { due = none; log = cmd ∷ s.log },
)

abbrev pub sim : HidDevice
sim = record {
  State = Sim;
  write = λ bytes s. take_packet (decode bytes) bytes s;
  read_timeout = λ n s. give_reply s.due s;
  device_info = λ s. ok s.identity;
}

pub reply_to-Answers : (cmd : Command) (log : List Command) → Answers cmd (reply_to cmd log)
reply_to-Answers init log = tt
reply_to-Answers get_firmware_version log = tt
reply_to-Answers (get_data port) log = omega arith
reply_to-Answers (set_speed port speed) log = tt
reply_to-Answers (set_rgb port mode colors) log = tt

pub reply_to-fits :
    (cmd : Command) (log : List Command)
    → length (reply_bytes 0x33 0 (reply_to cmd log) ++ 0 ∷ []) ≤ 193
reply_to-fits init log = omega arith
reply_to-fits get_firmware_version log = omega arith
reply_to-fits (get_data port) log = omega arith
reply_to-fits (set_speed port speed) log = omega arith
reply_to-fits (set_rgb port mode colors) log = omega arith

abbrev pub sim-Compliant : Compliant sim
sim-Compliant = record {
  taken = λ cmd s. record s { due = some cmd };
  obey = λ cmd s. record s { due = none; log = cmd ∷ s.log };
  answer = λ cmd s. reply_to cmd s.log;
  b0 = 0x33;
  b1 = 0;
  padding = 0 ∷ [];
  answers = λ cmd s. reply_to-Answers cmd s.log;
  fits = λ cmd s. reply_to-fits cmd s.log;
  write_lem = λ cmd s bytes h. ap (λ o. take_packet o bytes s) h;
  read_lem = λ cmd s. refl;
}

abbrev pub sim-Acknowledges : Acknowledges sim-Compliant
sim-Acknowledges = record { speed_ack = λ port speed s. refl; rgb_ack = λ port mode colors s. refl }

abbrev pub fingerprint : ℕ → HardwareFingerprint
fingerprint pid = record { vendor_id = 0x264a; product_id = pid; serial = none }

abbrev pub fresh : ℕ → Sim
fresh pid = record { identity = fingerprint pid; due = none; log = [] }

abbrev pub idle_fan : Fan
idle_fan = record { current_speed = 0; current_rpm = 0 }

abbrev pub quad : Controller sim
quad = record { name = "quad"; dev = fresh 0x232B; fans = idle_fan ∷ idle_fan ∷ [] }

abbrev speeds : List (ℕ × ℕ)
speeds = (2, 70) ∷ (1, 40) ∷ []

abbrev red : List Rgb
red = replicate 52 (255, 0, 0)

-- Two speeds are sent, and the reports are stored with their fans.
two_speeds : update_speed_batch sim speeds quad ≡ (
  ok tt,
  record quad {
    dev = record (fresh 0x232B) {
      log = get_data 1 ∷ set_speed 1 40 ∷ get_data 2 ∷ set_speed 2 70 ∷ [];
    };
    fans =
        record { current_speed = 40; current_rpm = 1200 }
        ∷ record { current_speed = 70; current_rpm = 1200 }
        ∷ [];
  },
)
unfolding update_speed_batch process_speeds process_fan_inner ctrl_set_speed request encode decode
    parse ctrl_get_data update_all_stats update_stats rpm_of
two_speeds = refl

update_speed_batch_example : update_speed_batch sim speeds quad ≡ (
  ok tt,
  record quad {
    dev = obey_all sim-Compliant (speed_commands speeds) quad.dev;
    fans = stored quad.fans (seen sim-Compliant speeds quad.dev);
  },
)
update_speed_batch_example = update_speed_batch-eq sim-Compliant sim-Acknowledges speeds quad

update_color_batch_example :
    update_color_batch sim ((1, red) ∷ []) quad
    ≡ (ok tt, record quad { dev = record (fresh 0x232B) { log = set_rgb 1 0x24 red ∷ [] } })
update_color_batch_example =
    update_color_batch-eq sim-Compliant sim-Acknowledges ((1, red) ∷ []) quad

-- A channel past the last fan panics behind the report that came first.
past_the_fans :
    update_all_stats (idle_fan ∷ []) ((1, 30, 900) ∷ (2, 40, 950) ∷ [])
    ≡ (panic, record { current_speed = 30; current_rpm = 900 } ∷ [])
past_the_fans = update_all_stats-eq (idle_fan ∷ []) ((1, 30, 900) ∷ (2, 40, 950) ∷ [])
