-- ===== src/Transfer/Receiver.antt =====
-- The client: `rcvDataBlock`, and the loop of `main` around it.
use Prim.Native.Nat.{ℕ}
use linux_app_samp.Base.{
  zero, suc, ◌+◌, ◌-◌, ◌*◌, Bool, true, false, ◌||◌, ltb, ◌==◌, if◌then◌else◌, Bytes, set, take,
  replicate, overlay, get_or, Option, none, some, List, [], ◌∷◌,
}
use linux_app_samp.Transfer.Wire.{size_one_packet, size_packet_buf, eof_pos_a, eof_pos_b, data_code}

-- What one call of `rcvDataBlock` comes to.
pub data Rcvd : Type 0 where
  failed : Rcvd  -- `return;` with no value, and `*prcvOK` left alone
  block : (rcvd_eof rcv_ok : Bool) → Rcvd
  overrun : Rcvd  -- the write `s_rxBuf[EOFpos] = 0x00` lies behind the end of the array

-- The loop over `s_rxBuf[loop]`, with `rounds` rounds to go.
unfoldable pub check_loop : ℕ → ℕ → Bool → Bytes → Bool
check_loop zero loop rcv_ok buf = rcv_ok
check_loop (suc rounds) loop rcv_ok buf =
    check_loop rounds (suc loop) (if get_or buf loop == data_code then rcv_ok else false) buf

-- `loop` goes from 5 to below `size - 5`, which is below 0 for a short block.
unfoldable pub check_data : Bytes → ℕ → Bool
check_data buf size = check_loop (size - 5 - 5) 5 true buf

-- `s_rxBuf` after the memset and a `recv` of at most `EOF_POS_B + 1` bytes.
unfoldable pub receive_into : Bytes → Bytes
receive_into bytes = overlay (take (eof_pos_b + 1) bytes) (replicate size_packet_buf 0)

unfoldable pub read_block : Bytes → Rcvd
read_block buf =
    let mark_a = get_or buf eof_pos_a in
    let mark_b = get_or buf eof_pos_b in
    let eof_pos = mark_a * 256 + mark_b in
    if mark_a == data_code || mark_b == data_code
    then block false true
    else if ltb 0 eof_pos
    then if ltb eof_pos size_packet_buf
      then block true (check_data (set buf eof_pos 0) eof_pos)
      else overrun
    else block false (check_data buf size_one_packet)

-- `none` is a `recv` that returns -1.
unfoldable pub rcv_data_block : Option Bytes → Rcvd
rcv_data_block none = failed
rcv_data_block (some bytes) = read_block (receive_into bytes)

-- The loop of `main`: what it comes to, with the number of blocks and of lines `rcv failed`.
pub data Outcome : Type 0 where
  finished : (cnt failures : ℕ) (unread : List (Option Bytes)) → Outcome
  waiting : (cnt failures : ℕ) → Outcome  -- in `recv`, with nothing more to come
  undefined_value : (cnt : ℕ) → Outcome  -- tests the value of a call that returned none
  memory_error : (cnt : ℕ) → Outcome

-- The results of the calls of `recv` are given, in order.
unfoldable pub client_loop : ℕ → ℕ → List (Option Bytes) → Outcome
client_loop cnt failures [] = waiting cnt failures
client_loop cnt failures (r ∷ rs) =
    let after = λ (ok : Bool). if ok then failures else suc failures in
    elim (rcv_data_block r) [
      | failed ↦ undefined_value (suc cnt)
      | overrun ↦ memory_error (suc cnt)
      | block rcvd_eof rcv_ok ↦ elim rcvd_eof [
        | true ↦ finished (suc cnt) (after rcv_ok) rs
        | false ↦ client_loop (suc cnt) (after rcv_ok) rs
      ]
    ]
