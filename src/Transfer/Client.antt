-- ===== src/Transfer/Client.antt =====
-- `main` of the client.
use linux_app_samp.Base.{
  ltb, if◌then◌else◌, length, take, Bytes, overlay, codes, c_str, ℕ, Option, none, some, List, [],
  ◌∷◌, ◌++◌,
}
use linux_app_samp.Transfer.Receiver.{Outcome, finished, waiting, client_loop}

pub data ClientRun : Type 0 where
  usage : ClientRun  -- too few arguments
  overflow : ClientRun  -- the address does not fit in `destIP`
  over_read : (sent : Bytes) → ClientRun  -- `printf` reads behind `rcvBuf`
  ran : (sent : Bytes) → Outcome → ClientRun

-- `SIZE_RCV_BUF` of the client
abbrev pub size_reply_buf : ℕ
size_reply_buf = 200

-- `rcvBuf` after `recv`, which stores nothing if it fails.
abbrev pub replied : Bytes → Option Bytes → Bytes
replied rcv_buf none = rcv_buf
replied rcv_buf (some bytes) = overlay (take size_reply_buf bytes) rcv_buf

-- `printf("rx:%s\n", rcvBuf)`, which needs a zero in the array, and what follows it.
abbrev pub show_reply : Option Bytes → Outcome → Option Outcome
show_reply none rest = none
show_reply (some text) rest = some rest

-- The reply to the request: any result of `recv` but 0 lets the client show the array and read blocks.
unfoldable pub first_reply : (rcv_buf : Bytes) → List (Option Bytes) → Option Outcome
unfolding c_str overlay take
first_reply rcv_buf [] = some (waiting 0 0)
first_reply rcv_buf (some [] ∷ rs) = some (finished 0 0 rs)
first_reply rcv_buf (r ∷ rs) = show_reply (c_str (replied rcv_buf r)) (client_loop 0 0 rs)

abbrev pub after_request : (sent : Bytes) → Option Outcome → ClientRun
after_request sent none = over_read sent
after_request sent (some outcome) = ran sent outcome

abbrev pub request : Bytes
request = codes "req"

-- `argv`, what `rcvBuf` holds at first, and the results of `recv`, in order. The one round of the outer
-- `for` sends the request.
unfoldable pub client_main : List Bytes → (rcv_buf : Bytes) → List (Option Bytes) → ClientRun
unfolding first_reply
client_main (name ∷ address ∷ more) rcv_buf rs =
    if ltb (length address) 80
    then after_request (request ++ 0 ∷ []) (first_reply rcv_buf rs)
    else overflow
client_main _ rcv_buf rs = usage
