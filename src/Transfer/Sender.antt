-- ===== src/Transfer/Sender.antt =====
-- `sendDataBlock` of the server: the data cut into packets.
use Prim.Native.Nat.{ℕ}
use mathlib.Core.Option
use native.Mathlib.Nat.{add-zero, zero-add}
use linux_app_samp.Base.{
  zero, suc, ◌+◌, ◌-◌, ◌*◌, ◌≤◌, ◌<◌, ◌≡◌, true, false, ltb, ◌==◌, if◌then◌else◌, Bytes, Option,
  none, some, List, [], ◌∷◌, ◌++◌, arith,
}
use linux_app_samp.Transfer.Wire.{size_one_packet, size_large_data, send_one_packet}

-- The loop, on fuel: the packets in the order in which they are sent, `none` if the fuel runs out.
unfoldable pub send_loop : ℕ → Bytes → ℕ → ℕ → Option (List Bytes)
send_loop zero payload start left_size = none
send_loop (suc fuel) payload start left_size =
    let rest = send_loop fuel payload (start + size_one_packet) (left_size - size_one_packet) in
    let sent = Option.map (λ ps. send_one_packet payload start size_one_packet false ∷ ps) rest in
    if left_size == 0
    then some []
    else if ltb size_one_packet left_size
    then sent
    else some (send_one_packet payload start left_size true ∷ [])

-- One round sends at most one packet, and 125 packets hold `size_large_data`.
unfoldable pub send_data_block : Bytes → Option (List Bytes)
send_data_block payload = send_loop 125 payload 0 size_large_data

-- `count` packets that are full and carry no mark.
unfoldable pub full_packets : ℕ → Bytes → ℕ → List Bytes
full_packets zero payload start = []
full_packets (suc count) payload start =
    send_one_packet payload start size_one_packet false
    ∷ full_packets count payload (start + size_one_packet)

-- The packets for `count` full pieces and a last one of `size` bytes.
unfoldable pub packets : ℕ → ℕ → Bytes → ℕ → List Bytes
packets count size payload start =
    full_packets count payload start
    ++ send_one_packet payload (start + count * size_one_packet) size true ∷ []

pub packets-suc :
    (count size : ℕ) (payload : Bytes) (start : ℕ)
    → packets (suc count) size payload start
      ≡ send_one_packet payload start size_one_packet false
        ∷ packets count size payload (start + size_one_packet)
unfolding packets full_packets
packets-suc count size payload start =
    let next : start + size_one_packet + count * size_one_packet
        ≡ start + suc count * size_one_packet =
      omega arith in
    cc next

send_loop-last :
    (fuel : ℕ) (payload : Bytes) (start size : ℕ)
    → 0 < size
    → size ≤ size_one_packet
    → send_loop (suc fuel) payload start size ≡ some (send_one_packet payload start size true ∷ [])
unfolding send_loop
send_loop-last fuel payload start size p q = ground arith

send_loop-full :
    (fuel : ℕ) (payload : Bytes) (start left_size : ℕ)
    → size_one_packet < left_size
    → send_loop (suc fuel) payload start left_size
      ≡ Option.map
          (λ ps. send_one_packet payload start size_one_packet false ∷ ps)
          (send_loop fuel payload (start + size_one_packet) (left_size - size_one_packet))
unfolding send_loop
send_loop-full fuel payload start left_size h = ground arith

-- With fuel for its rounds the loop ends, whatever the data: full packets one behind the other, then
-- one packet for what is left, which is not empty and is marked as the end.
pub send_loop_total :
    (count fuel size : ℕ) (payload : Bytes) (start : ℕ)
    → 0 < size
    → size ≤ size_one_packet
    → count < fuel
    → send_loop fuel payload start (count * size_one_packet + size)
      ≡ some (packets count size payload start)
unfolding packets full_packets
send_loop_total count zero size payload start p q h = elim h [ ]
send_loop_total zero (suc fuel) size payload start p q h =
    rw (add-zero, zero-add) (send_loop-last fuel payload start size p q)
send_loop_total (suc count) (suc fuel) size payload start p q h =
    let left : suc count * size_one_packet + size - size_one_packet
        ≡ count * size_one_packet + size =
      omega arith in
    rw (
      send_loop-full fuel payload start (suc count * size_one_packet + size) (omega arith),
      left,
      send_loop_total count fuel size payload (start + size_one_packet) p q (omega arith),
      packets-suc,
    )
