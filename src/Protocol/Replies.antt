-- ===== src/Protocol/Replies.antt =====
-- The replies of the device, and what `parse` makes of them.
use Prim.Native.Nat.{bit_or}
use tt_riingd.Common.{
  ℕ, zero, suc, ◌+◌, ◌*◌, ◌/◌, ◌%◌, ◌<◌, ◌≤◌, ◌≡◌, refl, List, [], ◌∷◌, ok, ◌++◌, Bool, true, ◌&&◌,
  eqb, eqb_iff, arith, ap, ◌∙◌,
}
use tt_riingd.Protocol.{
  Command, init, get_firmware_version, get_data, set_speed, set_rgb, parse, Response, status,
  firmware_version, sensed, rpm_of,
}

-- The test holds of 0 to `last`: a finite table, checked by evaluation.
holds_to : (ℕ → Bool) → ℕ → Bool
holds_to test zero = test 0
holds_to test (suc last) = holds_to test last && test (suc last)

holds_to_all :
    (test : ℕ → Bool) (last : ℕ) {n : ℕ} → holds_to test last ≡ true → n ≤ last → test n ≡ true
unfolding holds_to
holds_to_all test zero {n} table le = let e : n ≡ 0 = omega arith in ap test e ∙ table
holds_to_all test (suc last) {n} table le = ground (arith, holds_to_all test last {n = n})

abbrev joins : ℕ → ℕ → Bool
joins high low = eqb (bit_or (high * 256 % 65536) low) (high * 256 + low)

join_table : holds_to (λ high. holds_to (joins high) 255) 255 ≡ true
unfolding holds_to
join_table = refl

-- The two bytes join to the number that they stand for, which fits into 16 bits.
pub rpm_of_lem : (high low : ℕ) → high < 256 → low < 256 → rpm_of high low ≡ high * 256 + low
unfolding rpm_of
rpm_of_lem high low h l =
    let row =
      holds_to_all (λ top. holds_to (joins top) 255) 255 {n = high} join_table (omega arith) in
    (eqb_iff _ _).0 (holds_to_all (joins high) 255 {n = low} row (omega arith))

-- What a device reports, and the bytes by which it does; the first two bytes are its own.
pub data Reply : Type 0 where
  state_reply : (code : ℕ) → Reply
  version_reply : (major minor patch : ℕ) → Reply
  data_reply : (speed rpm : ℕ) → Reply

abbrev pub reply_bytes : ℕ → ℕ → Reply → List ℕ
reply_bytes b0 b1 (state_reply code) = b0 ∷ b1 ∷ code ∷ []
reply_bytes b0 b1 (version_reply major minor patch) = major ∷ minor ∷ patch ∷ []
reply_bytes b0 b1 (data_reply speed rpm) = b0 ∷ b1 ∷ speed ∷ rpm % 256 ∷ rpm / 256 ∷ []

abbrev pub response_of : Reply → Response
response_of (state_reply code) = status code
response_of (version_reply major minor patch) = firmware_version major minor patch
response_of (data_reply speed rpm) = sensed speed rpm

-- The reply is of the kind that the command asks for, and its speed of rotation fits 16 bits.
abbrev pub Answers : Command → Reply → Type 0
Answers init (state_reply code) = Unit {0}
Answers (set_speed port speed) (state_reply code) = Unit {0}
Answers (set_rgb port mode colors) (state_reply code) = Unit {0}
Answers get_firmware_version (version_reply major minor patch) = Unit {0}
Answers (get_data port) (data_reply speed rpm) = rpm < 65536
Answers _ _ = ⊥

-- Of the bytes of a reply to the command, with any bytes behind them, `parse` makes that reply.
pub parse-reply :
    (cmd : Command) (r : Reply) (b0 b1 : ℕ) (padding : List ℕ)
    → Answers cmd r
    → parse cmd (reply_bytes b0 b1 r ++ padding) ≡ ok (response_of r)
unfolding parse
parse-reply init (state_reply code) b0 b1 padding h = refl
parse-reply (set_speed port speed) (state_reply code) b0 b1 padding h = refl
parse-reply (set_rgb port mode colors) (state_reply code) b0 b1 padding h = refl
parse-reply get_firmware_version (version_reply major minor patch) b0 b1 padding h = ground arith
parse-reply (get_data port) (data_reply speed rpm) b0 b1 padding h =
    ground (arith, rpm_of_lem (rpm / 256) (rpm % 256))
parse-reply init (version_reply _ _ _) b0 b1 padding h = absurd h
parse-reply init (data_reply _ _) b0 b1 padding h = absurd h
parse-reply (set_speed _ _) (version_reply _ _ _) b0 b1 padding h = absurd h
parse-reply (set_speed _ _) (data_reply _ _) b0 b1 padding h = absurd h
parse-reply (set_rgb _ _ _) (version_reply _ _ _) b0 b1 padding h = absurd h
parse-reply (set_rgb _ _ _) (data_reply _ _) b0 b1 padding h = absurd h
parse-reply get_firmware_version (state_reply _) b0 b1 padding h = absurd h
parse-reply get_firmware_version (data_reply _ _) b0 b1 padding h = absurd h
parse-reply (get_data _) (state_reply _) b0 b1 padding h = absurd h
parse-reply (get_data _) (version_reply _ _ _) b0 b1 padding h = absurd h
