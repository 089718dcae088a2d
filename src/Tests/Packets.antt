-- ===== src/Tests/Packets.antt =====
-- Packets and replies.
use tt_riingd.Common.{◌≡◌, refl, [], ◌∷◌, some, ok, err, encode_failed, replicate, arith}
use tt_riingd.Protocol.{get_data, set_speed, set_rgb, encode, parse, sensed}
use tt_riingd.Protocol.Decoding.{decode, decode-encode}
use tt_riingd.Protocol.Replies.{data_reply, parse-reply}

decode-encode_example : decode (0x00 ∷ 0x32 ∷ 0x51 ∷ 2 ∷ 0x01 ∷ 70 ∷ []) ≡ some (set_speed 2 70)
decode-encode_example =
    decode-encode (set_speed 2 70) (9 ∷ []) (0x00 ∷ 0x32 ∷ 0x51 ∷ 2 ∷ 0x01 ∷ 70 ∷ [])
      (unfold encode in refl)

parse-reply_example : parse (get_data 3) (7 ∷ 8 ∷ 50 ∷ 0xB0 ∷ 0x04 ∷ 0 ∷ []) ≡ ok (sensed 50 1200)
parse-reply_example = parse-reply (get_data 3) (data_reply 50 1200) 7 8 (0 ∷ []) (omega arith)

-- A buffer of 63 colours does not fit into a packet.
too_many_colors : encode (set_rgb 1 0x24 (replicate 63 (0, 0, 0))) [] ≡ err encode_failed
unfolding encode
too_many_colors = refl
