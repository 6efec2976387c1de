-- ===== src/Transfer/Faults.antt =====
-- What a network that cuts messages, and a foreign server, can do to the client.
use Prim.Native.Nat.{ℕ}
use linux_app_samp.Base.{
  ◌+◌, ◌-◌, ◌*◌, ◌<◌, ◌≤◌, ◌≡◌, ◌≢◌, ◌↔◌, inl, inr, false, Bytes, length, get_or, some, take,
  replicate, arith, get_or-overlay, get_or-take, get_or-replicate, length-take, length-replicate,
  Bool-cases, ltb, if◌then◌else◌,
}
use linux_app_samp.Transfer.Wire.{size_one_packet, size_packet_buf, eof_pos_a, eof_pos_b, data_code}
use linux_app_samp.Transfer.Receiver.{
  block, overrun, check_data, receive_into, read_block, rcv_data_block,
}
use linux_app_samp.Transfer.Check.{check_data_iff}

-- The buffer after a `recv`: the bytes received, then zeros.
get_or-receive_into_all :
    (bytes : Bytes) (i : ℕ)
    → length bytes ≤ eof_pos_b + 1
    → i ≤ eof_pos_b
    → get_or (receive_into bytes) i ≡ (if ltb i (length bytes) then get_or bytes i else 0)
unfolding receive_into
get_or-receive_into_all bytes i h p = ground (
  arith,
  length-take (eof_pos_b + 1) bytes,
  length-replicate {A = ℕ} size_packet_buf 0,
  get_or-overlay (take (eof_pos_b + 1) bytes) (replicate size_packet_buf 0) i,
  get_or-take (eof_pos_b + 1) bytes i,
  get_or-replicate size_packet_buf 0 i,
)

check_data-zero :
    (buf : Bytes) (size i : ℕ)
    → 5 ≤ i
    → i < size - 5
    → get_or buf i ≢ data_code
    → check_data buf size ≡ false
check_data-zero buf size i p q h = elim (Bool-cases (check_data buf size)) [
  | inl good ↦ absurd (h ((check_data_iff buf size).0 good i p q))
  | inr bad ↦ bad
]

-- A `recv` that returns less than the data of a full packet, whatever it returns, is taken for a block
-- that is not the end and is not good, and nothing of it is kept: the rest of that packet is then
-- read as if a packet began there.
pub rcv_short :
    (bytes : Bytes)
    → length bytes < size_one_packet - 5
    → rcv_data_block (some bytes) ≡ block false false
unfolding rcv_data_block read_block
rcv_short bytes h =
    let buf : Bytes = receive_into bytes in
    ground (
      arith,
      get_or-receive_into_all bytes eof_pos_a,
      get_or-receive_into_all bytes eof_pos_b,
      get_or-receive_into_all bytes (size_one_packet - 6),
      check_data-zero buf size_one_packet (size_one_packet - 6),
    )

-- The write at the mark lies behind the buffer exactly if the bytes received carry a mark that is at
-- least the size of the buffer and has no byte that is the data code.
pub rcv_overrun_iff :
    (bytes : Bytes)
    → length bytes ≡ eof_pos_b + 1
    → (rcv_data_block (some bytes) ≡ overrun) ↔ (
        (get_or bytes eof_pos_a ≢ data_code)
        × (get_or bytes eof_pos_b ≢ data_code)
        × (size_packet_buf ≤ get_or bytes eof_pos_a * 256 + get_or bytes eof_pos_b))
unfolding rcv_data_block read_block
rcv_overrun_iff bytes h =
    let at_a = get_or-receive_into_all bytes eof_pos_a (omega arith) (omega arith) in
    let at_b = get_or-receive_into_all bytes eof_pos_b (omega arith) (omega arith) in
    (ground (arith, at_a, at_b), ground (arith, at_a, at_b))
