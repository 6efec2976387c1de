-- ===== src/Transfer/Request.antt =====
-- The server: `sendReqOK`, and `main` from the accepted connection on.
use Prim.Native.Nat.{ℕ}
use linux_app_samp.Base.{
  ◌-◌, ltb, ◌==◌, if◌then◌else◌, Bytes, length, set, take, replicate, overlay, get_or, Option, none,
  some, List, [], ◌∷◌, ◌++◌, c_str, str_copy, str_cat, contains, codes,
}
use linux_app_samp.Transfer.Wire.{size_packet_buf, set_large_data}
use linux_app_samp.Transfer.Sender.{send_data_block}

-- `SIZE_RCV_BUF`
abbrev pub size_rcv_buf : ℕ
size_rcv_buf = 200

-- `if (s_txBuf[rcvdLen - 2] == '\n')`: for one byte received it reads in front of the array.
unfoldable pub remove_lf : Bytes → ℕ → Option Bytes
remove_lf buf rcvd_len =
    if ltb rcvd_len 2
    then none
    else if get_or buf (rcvd_len - 2) == 10
    then some (set buf (rcvd_len - 2) 0)
    else some buf

infixl 5 ◌>>=◌
abbrev ◌>>=◌ {ℓ κ} : {A : Type ℓ} {B : Type κ} → Option A → (A → Option B) → Option B
none >>= f = none
some a >>= f = f a

-- `sendReqOK`: the bytes that it sends; `none` is an access outside an array.
unfoldable pub send_req_ok : Bytes → ℕ → Option Bytes
unfolding remove_lf
send_req_ok rx_buf rcvd_len = do
  request ← c_str rx_buf
  copied ← str_copy (replicate size_packet_buf 0) request
  trimmed ← remove_lf copied rcvd_len
  tx_buf ← str_cat trimmed (codes ",OK")
  reply ← c_str tx_buf
  some (reply ++ 0 ∷ [])

-- What the loop of `main` comes to, with all that was sent to the client, in order.
pub data Served : Type 0 where
  closed : (sent : List Bytes) → Served
  waiting : (sent : List Bytes) → Served  -- in `recv`, with nothing more to come
  memory_error : (sent : List Bytes) → Served

-- The answer to a request: the reply, then the data.
unfoldable pub answer : Bytes → ℕ → Option (List Bytes)
answer rx_buf rcvd_len = do
  reply ← send_req_ok rx_buf rcvd_len
  packets ← send_data_block set_large_data
  some (reply ∷ packets)

-- One round: `recv` has stored `rcvd_len` bytes, at least one, in `rxBuf`.
unfoldable pub handle : Bytes → ℕ → Option (List Bytes)
unfolding answer
handle rx_buf rcvd_len = do
  request ← c_str rx_buf
  if contains (codes "req") request then answer rx_buf rcvd_len else some []

-- The loop over the results of `recv`: `none` is -1, and no bytes is the end of the connection.
-- `rx_buf` is never cleared: what a shorter message leaves of an earlier one stays.
unfoldable pub server_loop : Bytes → List Bytes → List (Option Bytes) → Served
server_loop rx_buf sent [] = waiting sent
server_loop rx_buf sent (none ∷ rs) = closed sent
server_loop rx_buf sent (some [] ∷ rs) = closed sent
server_loop rx_buf sent (some (b ∷ bs) ∷ rs) =
    let bytes = take size_rcv_buf (b ∷ bs) in
    let rx_buf' = overlay bytes rx_buf in
    elim (handle rx_buf' (length bytes)) [
      | none ↦ memory_error sent
      | some out ↦ server_loop rx_buf' (sent ++ out) rs
    ]
