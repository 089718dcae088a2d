-- ===== src/Protocol.antt =====
-- drivers/tt_riing_quad/protocol.rs: the packets of a TT Riing Quad controller. A byte is a number
-- below 256. `PackerBuffer` is an `ArrayVec` of capacity 193: an extension past the capacity fails.
pub mod Encoding
pub mod Decoding
pub mod Replies
use Prim.Native.Nat.{bit_or}
use tt_riingd.Common.{
  ℕ, ◌+◌, ◌*◌, ◌%◌, List, [], ◌∷◌, ◌++◌, Option, none, some, Result, ok, err, ◌>>=◌, ok_or,
  encode_failed, empty_status, short_buffer, if◌then◌else◌, ltb, leb, length, get_elem?, get_or,
}

abbrev pub cmd_init : ℕ
cmd_init = 0x33

abbrev pub cmd_get_fw_version : ℕ
cmd_get_fw_version = 0x50

abbrev pub cmd_get_data : ℕ
cmd_get_data = 0x51

abbrev pub cmd_set_speed : ℕ
cmd_set_speed = 0x51

abbrev pub cmd_set_rgb : ℕ
cmd_set_rgb = 0x52

abbrev pub prefix_0 : ℕ
prefix_0 = 0x00

abbrev pub prefix_1_fe : ℕ
prefix_1_fe = 0xFE

abbrev pub prefix_1_32 : ℕ
prefix_1_32 = 0x32

abbrev pub prefix_1_33 : ℕ
prefix_1_33 = 0x33

abbrev pub speed_flag : ℕ
speed_flag = 0x01

abbrev pub response_len : ℕ
response_len = 193

abbrev pub status_offset : ℕ
status_offset = 2

-- The capacity of `PackerBuffer`.
abbrev pub capacity : ℕ
capacity = response_len

-- Red, green, blue.
abbrev pub Rgb : Type 0
Rgb = ℕ × ℕ × ℕ

pub data Command : Type 0 where
  init : Command
  get_firmware_version : Command
  get_data : (port : ℕ) → Command
  set_speed : (port speed : ℕ) → Command
  set_rgb : (port mode : ℕ) (colors : List Rgb) → Command

-- `try_extend_from_slice`, its error mapped.
push : List ℕ → List ℕ → Result (List ℕ)
push buf bytes =
    if leb (length buf + length bytes) capacity then ok (buf ++ bytes) else err encode_failed

-- The loop of `SetRgb`: the device takes green, red, blue.
push_colors : List ℕ → List Rgb → Result (List ℕ)
unfolding push
push_colors buf [] = ok buf
push_colors buf ((r, g, b) ∷ colors) = push buf (g ∷ r ∷ b ∷ []) >>= λ buf'. push_colors buf' colors

-- `encode`: the buffer is cleared first, and what it holds after an error is dropped by its owner.
unfoldable pub encode : Command → List ℕ → Result (List ℕ)
unfolding push push_colors
encode init buf = push [] (prefix_0 ∷ prefix_1_fe ∷ cmd_init ∷ [])
encode get_firmware_version buf = push [] (prefix_0 ∷ prefix_1_33 ∷ cmd_get_fw_version ∷ [])
encode (get_data port) buf = push [] (prefix_0 ∷ prefix_1_33 ∷ cmd_get_data ∷ port ∷ [])
encode (set_speed port speed) buf =
    push [] (prefix_0 ∷ prefix_1_32 ∷ cmd_set_speed ∷ port ∷ speed_flag ∷ speed ∷ [])
encode (set_rgb port mode colors) buf = if ltb capacity response_len then err encode_failed else (do
  head ← push [] (prefix_0 ∷ prefix_1_32 ∷ cmd_set_rgb ∷ port ∷ mode ∷ [])
  push_colors head colors)

abbrev pub color_bytes : List Rgb → List ℕ
color_bytes [] = []
color_bytes ((r, g, b) ∷ colors) = g ∷ r ∷ b ∷ color_bytes colors

unfoldable pub to_bytes : Command → List ℕ
to_bytes init = prefix_0 ∷ prefix_1_fe ∷ cmd_init ∷ []
to_bytes get_firmware_version = prefix_0 ∷ prefix_1_33 ∷ cmd_get_fw_version ∷ []
to_bytes (get_data port) = prefix_0 ∷ prefix_1_33 ∷ cmd_get_data ∷ port ∷ []
to_bytes (set_speed port speed) =
    prefix_0 ∷ prefix_1_32 ∷ cmd_set_speed ∷ port ∷ speed_flag ∷ speed ∷ []
to_bytes (set_rgb port mode colors) =
    prefix_0 ∷ prefix_1_32 ∷ cmd_set_rgb ∷ port ∷ mode ∷ color_bytes colors

pub data Response : Type 0 where
  status : (code : ℕ) → Response
  firmware_version : (major minor patch : ℕ) → Response
  sensed : (speed rpm : ℕ) → Response

-- `u16::from(high) << 8 | u16::from(low)`.
unfoldable pub rpm_of : ℕ → ℕ → ℕ
rpm_of high low = bit_or (high * 256 % 65536) low

parse_status : List ℕ → Result Response
parse_status buf = ok_or (get_elem? buf status_offset) empty_status >>= λ code. ok (status code)

-- `Response::parse`; an index below a checked length is read without a failure.
unfoldable pub parse : Command → List ℕ → Result Response
unfolding parse_status
parse init buf = parse_status buf
parse (set_speed port speed) buf = parse_status buf
parse (set_rgb port mode colors) buf = parse_status buf
parse get_firmware_version buf =
    if ltb (length buf) 3
    then err short_buffer
    else ok (firmware_version (get_or buf 0 0) (get_or buf 1 0) (get_or buf 2 0))
parse (get_data port) buf =
    if ltb (length buf) 5
    then err short_buffer
    else ok (sensed (get_or buf 2 0) (rpm_of (get_or buf 4 0) (get_or buf 3 0)))
