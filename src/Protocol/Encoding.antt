-- ===== src/Protocol/Encoding.antt =====
-- The packet buffer of `encode` against the unbounded `to_bytes`.
use tt_riingd.Common.{
  ℕ, ◌+◌, ◌*◌, ◌≤◌, ◌<◌, ◌≡◌, refl, ◌↔◌, List, [], ◌∷◌, ◌++◌, ok, err, encode_failed, if◌then◌else◌,
  leb, length, length-append, arith,
}
use tt_riingd.Protocol.{
  Command, init, get_firmware_version, get_data, set_speed, set_rgb, Rgb, push, push_colors, encode,
  color_bytes, to_bytes, capacity, prefix_0, prefix_1_32, cmd_set_rgb,
}
use mathlib.Core.List.{append-nil, append_assoc}

length-color_bytes : (colors : List Rgb) → length (color_bytes colors) ≡ 3 * length colors
length-color_bytes [] = omega arith
length-color_bytes ((r, g, b) ∷ colors) = omega (arith, length-color_bytes colors)

-- The loop that pushes the colours fails just when the whole would not fit.
push_colors-eq :
    (buf : List ℕ) (colors : List Rgb)
    → length buf ≤ capacity
    → push_colors buf colors ≡ (
        if leb (length buf + 3 * length colors) capacity
        then ok (buf ++ color_bytes colors)
        else err encode_failed)
unfolding push_colors push
push_colors-eq buf [] h = rw append-nil (ground arith)
push_colors-eq buf ((r, g, b) ∷ colors) h = ground (
  arith,
  push_colors-eq (buf ++ g ∷ r ∷ b ∷ []) colors,
  length-append buf (g ∷ r ∷ b ∷ []),
  append_assoc buf (g ∷ r ∷ b ∷ []) (color_bytes colors),
)

-- `encode` gives the bytes of `to_bytes` when they fit into 193, and fails when they do not.
pub encode-eq-to_bytes :
    (cmd : Command) (buf : List ℕ)
    → encode cmd buf
      ≡ (if leb (length (to_bytes cmd)) capacity then ok (to_bytes cmd) else err encode_failed)
unfolding encode to_bytes
encode-eq-to_bytes init buf = refl
encode-eq-to_bytes get_firmware_version buf = refl
encode-eq-to_bytes (get_data port) buf = refl
encode-eq-to_bytes (set_speed port speed) buf = refl
encode-eq-to_bytes (set_rgb port mode colors) buf = ground (
  arith,
  push_colors-eq (prefix_0 ∷ prefix_1_32 ∷ cmd_set_rgb ∷ port ∷ mode ∷ []) colors,
  length-color_bytes colors,
)

-- A colour command of at most 62 LEDs can be encoded, and no longer one can.
pub encode_set_rgb_iff :
    (port mode : ℕ) (colors : List Rgb) (buf : List ℕ)
    → (encode (set_rgb port mode colors) buf ≡ ok (to_bytes (set_rgb port mode colors)))
      ↔ (length colors ≤ 62)
unfolding to_bytes
encode_set_rgb_iff port mode colors buf =
    ground (arith, encode-eq-to_bytes (set_rgb port mode colors) buf, length-color_bytes colors)

-- Of a longer one the encoding fails.
pub encode_set_rgb_long :
    (port mode : ℕ) (colors : List Rgb) (buf : List ℕ)
    → 62 < length colors
    → encode (set_rgb port mode colors) buf ≡ err encode_failed
unfolding to_bytes
encode_set_rgb_long port mode colors buf h =
    ground (arith, encode-eq-to_bytes (set_rgb port mode colors) buf, length-color_bytes colors)
