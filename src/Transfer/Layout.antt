-- ===== src/Transfer/Layout.antt =====
-- Where each byte of a packet comes from.
use mathlib.Core.Path.{◌≡◌}
use linux_app_samp.Base.{
  ℕ, ◌+◌, ◌≤◌, Bool, ltb, ◌==◌, if◌then◌else◌, Bytes, length, set, take, drop, replicate, overlay,
  get_or, get_or-overlay, get_or-set, get_or-replicate, get_or-drop, get_or-take, length-overlay,
  length-set, length-take, length-drop, length-replicate, arith, leb, ◌&&◌, ◌||◌, ◌/◌, ◌%◌,
}
use linux_app_samp.Transfer.Wire.{
  size_one_packet, eof_pos_a, eof_pos_b, size_packet_buf, eof_marks, fill_packet, stamp_packet,
  send_one_packet,
}

-- A piece of the data that lies inside it.
pub record Chunk (payload : Bytes) (start size : ℕ) : Type 0 where
  pub inside : start + size ≤ length payload
  pub fits : size ≤ size_one_packet

pub length-slice :
    {payload : Bytes} {start size : ℕ}
    → Chunk payload start size
    → length (take size (drop start payload)) ≡ size
length-slice {payload} {start} {size} c =
    omega (arith, length-take size (drop start payload), length-drop start payload)

-- A later write wins.
get_or-stamp_packet :
    (buf : Bytes) (j : ℕ)
    → length buf ≡ size_packet_buf
    → get_or (stamp_packet buf) j
      ≡ (if leb 8190 j && leb j 8192 then b'E' else if ltb j 3 then b'0' + j else get_or buf j)
unfolding stamp_packet
get_or-stamp_packet buf j h =
    let b0 : Bytes = set buf 0 b'0' in
    let b1 : Bytes = set b0 1 b'1' in
    let b2 : Bytes = set b1 2 b'2' in
    let b3 : Bytes = set b2 8192 b'E' in
    let b4 : Bytes = set b3 8191 b'E' in
    ground (
      arith,
      length-set buf 0 b'0',
      length-set b0 1 b'1',
      length-set b1 2 b'2',
      length-set b2 8192 b'E',
      length-set b3 8191 b'E',
      get_or-set buf 0 j b'0',
      get_or-set b0 1 j b'1',
      get_or-set b1 2 j b'2',
      get_or-set b2 8192 j b'E',
      get_or-set b3 8191 j b'E',
      get_or-set b4 8190 j b'E',
    )

module _ {payload : Bytes} {start size : ℕ} (c : Chunk payload start size) (send_eof : Bool) where
  abbrev filled : Bytes
  filled = fill_packet payload start size send_eof

  length-filled : length filled ≡ size_packet_buf
  unfolding fill_packet
  length-filled = omega (arith, length-set {0}, length-overlay, length-replicate {0})

  get_or-slice :
      (i : ℕ)
      → get_or (overlay (take size (drop start payload)) (replicate size_packet_buf 0)) i
        ≡ (if ltb i size then get_or payload (start + i) else 0)
  get_or-slice i = ground (
    arith,
    length-slice c,
    length-replicate {A = ℕ} size_packet_buf 0,
    get_or-overlay (take size (drop start payload)) (replicate size_packet_buf 0) i,
    get_or-replicate size_packet_buf 0 i,
    get_or-take size (drop start payload) i,
    get_or-drop start payload i,
  )

  get_or-filled :
      (i : ℕ)
      → get_or filled i ≡ (
          if i == eof_pos_a
          then (eof_marks size send_eof).0
          else if i == eof_pos_b
          then (eof_marks size send_eof).1
          else if ltb i size
          then get_or payload (start + i)
          else 0)
  unfolding fill_packet
  get_or-filled i =
      let buf : Bytes = overlay (take size (drop start payload)) (replicate size_packet_buf 0) in
      let marks : ℕ × ℕ = eof_marks size send_eof in
      ground (
        arith,
        length-overlay (take size (drop start payload)) (replicate size_packet_buf 0),
        length-replicate {A = ℕ} size_packet_buf 0,
        length-set buf eof_pos_a marks.0,
        get_or-set buf eof_pos_a i marks.0,
        get_or-set (set buf eof_pos_a marks.0) eof_pos_b i marks.1,
        get_or-slice i,
      )

  pub packet_bytes :
      (i : ℕ)
      → i ≤ eof_pos_b
      → get_or (send_one_packet payload start size send_eof) i ≡ (
          if i == eof_pos_a
          then (eof_marks size send_eof).0
          else if i == eof_pos_b
          then (eof_marks size send_eof).1
          else if leb 8190 i
          then b'E'
          else if ltb i 3
          then b'0' + i
          else if ltb i size
          then get_or payload (start + i)
          else 0)
  unfolding send_one_packet
  packet_bytes i h = ground (
    arith,
    length-filled,
    get_or-take (eof_pos_b + 1) (stamp_packet filled) i,
    get_or-stamp_packet filled i,
    get_or-filled i,
  )

  pub length-send_one_packet : length (send_one_packet payload start size send_eof) ≡ eof_pos_b + 1
  unfolding send_one_packet stamp_packet
  length-send_one_packet = omega (arith, length-take {0}, length-set {0}, length-filled)

  -- Each of the bytes that `sendOnePacket` sends: the two marks, the letters written over the start
  -- and over the end, the piece of the data, and zeros behind a short piece.
  pub packet_layout :
      (i : ℕ)
      → i ≤ eof_pos_b
      → get_or (send_one_packet payload start size send_eof) i ≡ (
          if i == eof_pos_a
          then (if ltb size size_one_packet || send_eof then size / 256 % 256 else 0)
          else if i == eof_pos_b
          then (if ltb size size_one_packet || send_eof then size % 256 else 0)
          else if leb 8190 i
          then b'E'
          else if ltb i 3
          then b'0' + i
          else if ltb i size
          then get_or payload (start + i)
          else 0)
  unfolding eof_marks
  packet_layout i h = ground (arith, packet_bytes i h)
