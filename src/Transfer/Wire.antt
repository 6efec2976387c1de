-- ===== src/Transfer/Wire.antt =====
-- The packet of app_05common.h, and `setLargeData` and `sendOnePacket` of the server.
use linux_app_samp.Base.{
  ℕ, ◌+◌, ◌-◌, ◌/◌, ◌%◌, Bool, ◌||◌, ltb, if◌then◌else◌, Bytes, set, take, drop, replicate, overlay,
}

abbrev pub size_one_packet : ℕ
size_one_packet = 8192

abbrev pub eof_pos_a : ℕ
eof_pos_a = size_one_packet + 1

abbrev pub eof_pos_b : ℕ
eof_pos_b = eof_pos_a + 1

abbrev pub size_large_data : ℕ
size_large_data = 1024000

-- `kDataCode`, the letter C
abbrev pub data_code : ℕ
data_code = b'C'

-- The size of `s_txBuf` and of `s_rxBuf`.
abbrev pub size_packet_buf : ℕ
size_packet_buf = size_one_packet + 10

-- `setLargeData`: the contents of `s_largeData` after the loop.
unfoldable pub set_large_data : Bytes
set_large_data = replicate size_large_data data_code

-- `posA` and `posB`, which are unsigned char.
unfoldable pub eof_marks : ℕ → Bool → ℕ × ℕ
eof_marks size send_eof =
    if ltb size size_one_packet || send_eof then (size / 256 % 256, size % 256) else (0, 0)

-- `s_txBuf` after the memset, the memcpy and the two marks.
unfoldable pub fill_packet : Bytes → ℕ → ℕ → Bool → Bytes
fill_packet payload start size send_eof =
    let marks = eof_marks size send_eof in
    let buf = overlay (take size (drop start payload)) (replicate size_packet_buf 0) in
    set (set buf eof_pos_a marks.0) eof_pos_b marks.1

-- The letters that are written over the packet for debugging.
unfoldable pub stamp_packet : Bytes → Bytes
stamp_packet buf =
    let head = set (set (set buf 0 b'0') 1 b'1') 2 b'2' in
    set (set (set head (eof_pos_a - 1) b'E') (eof_pos_a - 2) b'E') (eof_pos_a - 3) b'E'

-- `sendOnePacket`: the bytes that it hands to `send`.
unfoldable pub send_one_packet : Bytes → ℕ → ℕ → Bool → Bytes
send_one_packet payload start size send_eof =
    take (eof_pos_b + 1) (stamp_packet (fill_packet payload start size send_eof))
