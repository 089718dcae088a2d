-- ===== src/Protocol/Decoding.antt =====
-- A reader of command packets, written from the layout of the packets.
use tt_riingd.Common.{
  ℕ, ◌≡◌, refl, List, [], ◌∷◌, Option, none, some, ok, if◌then◌else◌, eqb, ◌&&◌, arith,
}
use mathlib.Core.Option
use tt_riingd.Protocol.Encoding.{encode-eq-to_bytes}
use tt_riingd.Protocol.{
  Command, init, get_firmware_version, get_data, set_speed, set_rgb, Rgb, to_bytes, color_bytes,
  encode,
}

-- Triples of green, red, blue; `none` if the bytes do not come in threes.
abbrev read_colors : List ℕ → Option (List Rgb)
read_colors [] = some []
read_colors (_ ∷ []) = none
read_colors (_ ∷ _ ∷ []) = none
read_colors (g ∷ r ∷ b ∷ bytes) = Option.map (λ colors. (r, g, b) ∷ colors) (read_colors bytes)

-- What a device does on a packet behind the leading 0: byte 1 selects the group, byte 2 the command.
decode_tail : ℕ → ℕ → List ℕ → Option Command
decode_tail group code [] =
    if eqb group 0xFE && eqb code 0x33
    then some init
    else if eqb group 0x33 && eqb code 0x50
    then some get_firmware_version
    else none
decode_tail group code (port ∷ []) =
    if eqb group 0x33 && eqb code 0x51 then some (get_data port) else none
decode_tail group code (port ∷ mode ∷ bytes) =
    if eqb group 0x32 && eqb code 0x52
    then Option.map (set_rgb port mode) (read_colors bytes)
    else if eqb group 0x32 && eqb code 0x51 && eqb mode 1
    then speed_of bytes
    else none
  where
    speed_of : List ℕ → Option Command
    speed_of (speed ∷ []) = some (set_speed port speed)
    speed_of _ = none

unfoldable pub decode : List ℕ → Option Command
unfolding decode_tail
decode (ℕ.zero ∷ group ∷ code ∷ bytes) = decode_tail group code bytes
decode _ = none

read-color_bytes : (colors : List Rgb) → read_colors (color_bytes colors) ≡ some colors
read-color_bytes [] = refl
read-color_bytes ((r, g, b) ∷ colors) = rw (read-color_bytes colors)

decode-to_bytes : (cmd : Command) → decode (to_bytes cmd) ≡ some cmd
unfolding decode to_bytes
decode-to_bytes init = refl
decode-to_bytes get_firmware_version = refl
decode-to_bytes (get_data port) = refl
decode-to_bytes (set_speed port speed) = refl
decode-to_bytes (set_rgb port mode colors) = rw (read-color_bytes colors)

-- Every packet that `encode` makes is read back as the command that it was made from.
pub decode-encode :
    (cmd : Command) (buf bytes : List ℕ) → encode cmd buf ≡ ok bytes → decode bytes ≡ some cmd
decode-encode cmd buf bytes h = ground (arith, encode-eq-to_bytes cmd buf, decode-to_bytes cmd)
