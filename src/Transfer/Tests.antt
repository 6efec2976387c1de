-- ===== src/Transfer/Tests.antt =====
-- The transfer at concrete inputs.
use linux_app_samp.Base.{
  ltb, leb, ◌==◌, if◌then◌else◌, length, take, drop, replicate, length-append, length-replicate,
  Bytes, get_or, overlay, codes, c_str, ℕ, ◌+◌, ◌*◌, ◌/◌, ◌%◌, ◌≤◌, ◌≡◌, refl, ◌≢◌, ◌↔◌, ◌⊎◌, Bool,
  true, not, ◌&&◌, ◌||◌, none, some, List, [], ◌∷◌, ◌++◌, map, arith,
}
use linux_app_samp.Transfer.Wire.{
  size_one_packet, size_packet_buf, eof_pos_a, eof_pos_b, data_code, fill_packet, stamp_packet,
  send_one_packet,
}
use linux_app_samp.Transfer.Layout.{Chunk, packet_layout}
use linux_app_samp.Transfer.Sender.{send_loop, packets, send_loop_total}
use linux_app_samp.Transfer.Receiver.{
  block, overrun, rcv_data_block, finished, waiting, client_loop,
}
use linux_app_samp.Transfer.Check.{IsPiece, is_marked}
use linux_app_samp.Transfer.RoundTrip.{rcv_sent, IsClean, transfer_complete, transfer_end_lost}
use linux_app_samp.Transfer.Request.{remove_lf}
use linux_app_samp.Transfer.Client.{first_reply}
use linux_app_samp.Transfer.Faults.{rcv_overrun_iff}

-- Ten bytes of data, and sixty-seven.
abbrev ten : Bytes
ten = 67 ∷ 67 ∷ 67 ∷ 67 ∷ 67 ∷ 67 ∷ 67 ∷ 67 ∷ 67 ∷ 67 ∷ []

sixty_seven : Bytes
sixty_seven = replicate 67 data_code

length-sixty_seven : length sixty_seven ≡ 67
unfolding sixty_seven
length-sixty_seven = length-replicate {A = ℕ} 67 data_code

ten_whole : Chunk ten 0 10
ten_whole = record { inside = omega arith; fits = omega arith }

sent_ten : take 12 (send_one_packet ten 0 10 true) ≡ codes "012CCCCCCC" ++ 0 ∷ 0 ∷ []
unfolding send_one_packet fill_packet stamp_packet take drop overlay replicate
sent_ten = refl

packet_layout_example : get_or (send_one_packet ten 0 10 true) 5 ≡ (
    if 5 == eof_pos_a
    then (if ltb 10 size_one_packet || true then 10 / 256 % 256 else 0)
    else if 5 == eof_pos_b
    then (if ltb 10 size_one_packet || true then 10 % 256 else 0)
    else if leb 8190 5
    then b'E'
    else if ltb 5 3
    then b'0' + 5
    else if ltb 5 10
    then get_or ten (0 + 5)
    else 0)
packet_layout_example = packet_layout ten_whole true 5 (omega arith)

send_loop_total_example : send_loop 1 ten 0 (0 * size_one_packet + 10) ≡ some (packets 0 10 ten 0)
send_loop_total_example = send_loop_total 0 1 10 ten 0 (omega arith) (omega arith) (omega arith)

rcv_sent_example :
    (ok : Bool) × (rcv_data_block (some (send_one_packet ten 0 10 true))
      ≡ block (is_marked 10 true && not (10 % 256 == data_code)) ok)
    × ((ok ≡ true) ↔ ((is_marked 10 true && (10 % 256 == data_code)) ≡ true) ⊎ IsPiece ten 0 10)
rcv_sent_example = rcv_sent ten_whole true (omega arith)

transfer_complete_example :
    (ps : List Bytes) × (n : ℕ) × (send_loop 1 ten 0 10 ≡ some ps)
    × (client_loop 0 0 (map some ps) ≡ finished 1 n [])
    × ((n ≡ 0) ↔ IsClean 0 10 ten 0)
transfer_complete_example =
    transfer_complete 0 10 ten (omega arith) (omega arith) (omega arith) refl

transfer_end_lost_example :
    (ps : List Bytes) × (n : ℕ) × (send_loop 1 sixty_seven 0 (length sixty_seven) ≡ some ps)
    × (client_loop 0 0 (map some ps) ≡ waiting 1 n)
transfer_end_lost_example =
    transfer_end_lost 0 67 sixty_seven (omega arith) (omega arith)
      (omega (arith, length-sixty_seven)) (omega arith)

rx_buf : Bytes
rx_buf = replicate 200 b'x'

-- A request of one byte: the byte in front of the buffer is read.
one_byte_request : remove_lf (b'r' ∷ 0 ∷ []) 1 ≡ none
unfolding remove_lf
one_byte_request = refl

-- An error of the first `recv` leaves an array without a zero.
reply_failed : first_reply (replicate 200 b'#') (none ∷ []) ≡ none
unfolding first_reply c_str replicate
reply_failed = refl

-- A packet of a foreign server, with a mark of 255 * 256 + 255.
foreign : Bytes
foreign = replicate 8193 0 ++ 255 ∷ 255 ∷ []

length-foreign : length foreign ≡ eof_pos_b + 1
unfolding foreign
length-foreign = omega (
  arith,
  length-append {A = ℕ} (replicate 8193 0) (255 ∷ 255 ∷ []),
  length-replicate {A = ℕ} 8193 0,
)

rcv_overrun_iff_example : (rcv_data_block (some foreign) ≡ overrun) ↔ (
    (get_or foreign eof_pos_a ≢ data_code)
    × (get_or foreign eof_pos_b ≢ data_code)
    × (size_packet_buf ≤ get_or foreign eof_pos_a * 256 + get_or foreign eof_pos_b))
rcv_overrun_iff_example = rcv_overrun_iff foreign length-foreign
