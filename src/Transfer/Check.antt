-- ===== src/Transfer/Check.antt =====
-- What the check of a received block decides, and what a packet of the server is read as.
use Prim.Native.Nat.{ℕ}
use linux_app_samp.Base.{
  zero, suc, ◌+◌, ◌-◌, ◌*◌, ◌%◌, ◌/◌, ◌≤◌, ◌<◌, ◌≡◌, refl, ◌↔◌, ◌⊎◌, inl, inr, Bool, true, false,
  ◌&&◌, ◌||◌, ltb, ◌==◌, Bytes, length, set, take, replicate, get_or, some, arith, Bool-cases,
  get_or-set, get_or-overlay, get_or-take, length-replicate, length-take, length-overlay,
}
use linux_app_samp.Transfer.Wire.{
  size_one_packet, size_packet_buf, eof_pos_a, eof_pos_b, data_code, eof_marks, send_one_packet,
}
use linux_app_samp.Transfer.Layout.{Chunk, packet_bytes, length-send_one_packet}
use linux_app_samp.Transfer.Receiver.{
  block, check_loop, check_data, receive_into, read_block, rcv_data_block,
}

-- The bytes from `from` to below `to` are the data code.
abbrev pub IsData : Bytes → ℕ → ℕ → Type 0
IsData buf from to = (i : ℕ) → from ≤ i → i < to → get_or buf i ≡ data_code

-- The piece of the data from `start` on is the data code, less five bytes at each end.
abbrev pub IsPiece : Bytes → ℕ → ℕ → Type 0
IsPiece payload start size = (i : ℕ) → 5 ≤ i → i < size - 5 → get_or payload (start + i) ≡ data_code

check_loop-false : (rounds loop : ℕ) (buf : Bytes) → check_loop rounds loop false buf ≡ false
unfolding check_loop
check_loop-false zero loop buf = refl
check_loop-false (suc rounds) loop buf = ground (arith, check_loop-false rounds (suc loop) buf)

check_loop_sound :
    (rounds loop : ℕ) (buf : Bytes)
    → check_loop rounds loop true buf ≡ true
    → IsData buf loop (loop + rounds)
unfolding check_loop
check_loop_sound zero loop buf h i p q = absurd (omega arith)
check_loop_sound (suc rounds) loop buf h i p q = ground (
  arith,
  check_loop-false rounds (suc loop) buf,
  λ (k : check_loop rounds (suc loop) true buf ≡ true) (p' : suc loop ≤ i).
      check_loop_sound rounds (suc loop) buf k i p' (omega arith),
)

check_loop_complete :
    (rounds loop : ℕ) (buf : Bytes)
    → IsData buf loop (loop + rounds)
    → check_loop rounds loop true buf ≡ true
unfolding check_loop
check_loop_complete zero loop buf h = refl
check_loop_complete (suc rounds) loop buf h = ground (
  arith,
  h loop (omega arith) (omega arith),
  check_loop_complete rounds (suc loop) buf (λ i p q. h i (omega arith) (omega arith)),
)

-- The loop finds a block good exactly if every byte from 5 to below `size - 5` is the data code.
pub check_data_iff :
    (buf : Bytes) (size : ℕ) → (check_data buf size ≡ true) ↔ IsData buf 5 (size - 5)
unfolding check_data
check_data_iff buf size = (
  λ h i p q. check_loop_sound (size - 5 - 5) 5 buf h i p (omega arith),
  λ h. check_loop_complete (size - 5 - 5) 5 buf (λ i p q. h i p (omega arith)),
)

get_or-receive_into :
    (bytes : Bytes) (i : ℕ)
    → length bytes ≡ eof_pos_b + 1
    → i ≤ eof_pos_b
    → get_or (receive_into bytes) i ≡ get_or bytes i
unfolding receive_into
get_or-receive_into bytes i h p = ground (
  arith,
  length-take (eof_pos_b + 1) bytes,
  length-replicate {A = ℕ} size_packet_buf 0,
  get_or-overlay (take (eof_pos_b + 1) bytes) (replicate size_packet_buf 0) i,
  get_or-take (eof_pos_b + 1) bytes i,
)

pub length-receive_into : (bytes : Bytes) → length (receive_into bytes) ≡ size_packet_buf
unfolding receive_into
length-receive_into bytes = omega (arith, length-overlay, length-replicate {0})

-- Whether a packet carries the mark.
abbrev pub is_marked : ℕ → Bool → Bool
is_marked size send_eof = ltb size size_one_packet || send_eof

module _ {payload : Bytes} {start size : ℕ} (c : Chunk payload start size) (send_eof : Bool) where
  abbrev sent : Bytes
  sent = send_one_packet payload start size send_eof

  abbrev received : Bytes
  received = receive_into sent

  get_or-received : (i : ℕ) → i ≤ eof_pos_b → get_or received i ≡ get_or sent i
  get_or-received i p = get_or-receive_into sent i (length-send_one_packet c send_eof) p

  received_marks :
      (get_or received eof_pos_a ≡ (eof_marks size send_eof).0)
      × (get_or received eof_pos_b ≡ (eof_marks size send_eof).1)
  received_marks = (
    ground (arith, get_or-received eof_pos_a, packet_bytes c send_eof eof_pos_a),
    ground (arith, get_or-received eof_pos_b, packet_bytes c send_eof eof_pos_b),
  )

  received_data : (i : ℕ) → 5 ≤ i → i < size - 5 → get_or received i ≡ get_or payload (start + i)
  received_data i p q = ground (arith, c.fits, get_or-received i, packet_bytes c send_eof i)

  check_received_iff :
      (buf : Bytes)
      → ((i : ℕ) → 5 ≤ i → i < size - 5 → get_or buf i ≡ get_or received i)
      → (check_data buf size ≡ true) ↔ IsPiece payload start size
  check_received_iff buf same = (
    λ h i p q. ground (arith, (check_data_iff buf size).0 h i p q, same i p q, received_data i p q),
    λ h.
        (check_data_iff buf size).1
          (λ i p q. ground (arith, h i p q, same i p q, received_data i p q)),
  )

  -- A marked packet whose low byte is the data code.
  abbrev is_misread : Bool
  is_misread = is_marked size send_eof && size % 256 == data_code

  rcv_misread : is_misread ≡ true → rcv_data_block (some sent) ≡ block false true
  unfolding rcv_data_block read_block eof_marks
  rcv_misread h = ground (arith, received_marks, c.fits)

  rcv_marked :
      0 < size
      → is_marked size send_eof ≡ true
      → (size % 256 == data_code) ≡ false
      → rcv_data_block (some sent) ≡ block true (check_data (set received size 0) size)
  unfolding rcv_data_block read_block eof_marks
  rcv_marked p m h =
      let whole : size / 256 % 256 * 256 + size % 256 ≡ size = omega (arith, c.fits) in
      ground (arith, received_marks, c.fits, whole)

  rcv_unmarked :
      is_marked size send_eof ≡ false
      → (size ≡ size_one_packet)
        × (rcv_data_block (some sent) ≡ block false (check_data received size))
  unfolding rcv_data_block read_block eof_marks
  rcv_unmarked h =
      let full : size ≡ size_one_packet = ground (arith, c.fits) in
      (full, ground (arith, received_marks))

  pub rcv_sent_cases :
      0 < size
      → ((is_misread ≡ true) × (rcv_data_block (some sent) ≡ block false true))
        ⊎ ((is_misread ≡ false)
            × (buf : Bytes) × (rcv_data_block (some sent)
                ≡ block (is_marked size send_eof) (check_data buf size))
            × ((check_data buf size ≡ true) ↔ IsPiece payload start size))
  rcv_sent_cases p = elim (Bool-cases (is_marked size send_eof)) [
    | inr plain ↦ inr (
      ground arith,
      received,
      rw plain (rcv_unmarked plain).1,
      check_received_iff received (λ i q r. refl),
    )
    | inl marked ↦ elim (Bool-cases (size % 256 == data_code)) [
      | inl low ↦ inl (ground arith, rcv_misread (ground arith))
      | inr low ↦ inr (
        ground arith,
        set received size 0,
        rw marked (rcv_marked p marked low),
        check_received_iff (set received size 0) (λ i q r.
            ground (arith, c.fits, length-receive_into sent, get_or-set received size i 0)),
      )
    ]
  ]
