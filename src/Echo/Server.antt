-- ===== src/Echo/Server.antt =====
-- The loops of the two servers. What the network does is a parameter: the results of the calls that
-- receive, and those of `sendto`.
use linux_app_samp.Base.{
  if◌then◌else◌, length, take, Bytes, overlay, codes, c_str, str_cat, contains, ℕ, Bool, true,
  Option, none, some, List, [], ◌∷◌, ◌++◌,
}
use linux_app_samp.Transfer.Request.{remove_lf}

abbrev pub size_buf : ℕ
size_buf = 200

abbrev pub ◌>>=◌ : {A B : Type 0} → Option A → (A → Option B) → Option B

infixl 5 ◌>>=◌
none >>= f = none
some a >>= f = f a

-- The line feed is taken off in the buffer and `,OK` is put behind: the buffer and what is sent of it,
-- with its zero. `none` is an access outside of the array.
unfoldable pub put_ok : Bytes → ℕ → Option (Bytes × Bytes)
put_ok rcv_buf rcvd_len = do
  trimmed ← remove_lf rcv_buf rcvd_len
  joined ← str_cat trimmed (codes ",OK\n")
  text ← c_str joined
  some (joined, text ++ 0 ∷ [])

-- Where a loop ends, with what has been sent and printed before, in order.
pub data Served : Type 0 where
  waiting : (sent printed : List Bytes) → Served
  closed : (sent printed : List Bytes) → Served
  failed : (sent printed : List Bytes) → Served  -- `exit(EXIT_FAILURE)`
  memory_error : (sent printed : List Bytes) → Served

-- `strstr(rcvBuf, "req")`
abbrev pub is_request : Bytes → Option Bool
is_request rcv_buf = do text ← c_str rcv_buf; some (contains (codes "req") text)

-- What `printf("rx: %s", rcvBuf)` prints of a text.
abbrev pub rx_line : Bytes → Bytes
rx_line text = codes "rx: " ++ text

-- A round: the buffer after it, and what it sends and prints; nothing for what is no request.
abbrev pub Round : Type 0
Round = Option (Bytes × List Bytes × List Bytes)

-- What follows a round, if it has not gone wrong.
abbrev pub after_round : Round → Served → (Bytes → (out line : List Bytes) → Served) → Served
after_round none wrong k = wrong
after_round (some (rcv_buf, out, line)) wrong k = k rcv_buf out line

abbrev pub tcp_answer : Bytes → ℕ → Round
tcp_answer rcv_buf rcvd_len = do
  (joined, reply) ← put_ok rcv_buf rcvd_len
  text ← c_str joined
  some (joined, reply ∷ [], rx_line text ∷ [])

unfoldable pub tcp_round : Bytes → ℕ → Round
unfolding put_ok
tcp_round rcv_buf rcvd_len = do
  asked ← is_request rcv_buf
  if asked then tcp_answer rcv_buf rcvd_len else some (rcv_buf, [], [])

-- The loop over the results of `recv`: `none` is -1, no bytes the end of the connection.
unfoldable pub tcp_loop : Bytes → (sent printed : List Bytes) → List (Option Bytes) → Served
unfolding tcp_round
tcp_loop rcv_buf sent printed [] = waiting sent printed
tcp_loop rcv_buf sent printed (none ∷ rs) = closed sent printed
tcp_loop rcv_buf sent printed (some [] ∷ rs) = closed sent printed
tcp_loop rcv_buf sent printed (some (b ∷ bs) ∷ rs) =
    let bytes = take size_buf (b ∷ bs) in
    after_round (tcp_round (overlay bytes rcv_buf) (length bytes)) (memory_error sent printed)
      (λ rcv_buf' out line. tcp_loop rcv_buf' (sent ++ out) (printed ++ line) rs)

-- `main` of the TCP server. `rcv_buf` is what the array holds before anything is received, `peer` what
-- `inet_ntoa` gives; the results of `bind`, `listen` and `accept` are not looked at.
unfoldable pub tcp_server : (rcv_buf peer : Bytes) → List (Option Bytes) → Served
unfolding tcp_loop
tcp_server rcv_buf peer =
    tcp_loop rcv_buf []
      (codes "before accept\n" ∷ (codes "after accept " ++ (peer ++ 10 ∷ [])) ∷ [])

-- The UDP server prints the request before it changes it.
abbrev pub udp_answer : Bytes → ℕ → Round
udp_answer rcv_buf rcvd_len = do
  text ← c_str rcv_buf
  (joined, reply) ← put_ok rcv_buf rcvd_len
  some (joined, reply ∷ [], rx_line text ∷ [])

unfoldable pub udp_round : Bytes → ℕ → Round
unfolding put_ok
udp_round rcv_buf rcvd_len = do
  asked ← is_request rcv_buf
  if asked then udp_answer rcv_buf rcvd_len else some (rcv_buf, [], [])

-- After a round the loop goes on, unless `sendto` was called and gave -1.
abbrev pub sent_well : Bool → List Bytes → Bool
sent_well ok [] = true
sent_well ok (reply ∷ replies) = ok

-- The loop over the results of `recvfrom`, each with whether a `sendto` after it succeeds. A datagram
-- without bytes is looked at like any other.
unfoldable pub udp_loop : Bytes → (sent printed : List Bytes) → List (Option Bytes × Bool) → Served
unfolding udp_round
udp_loop rcv_buf sent printed [] = waiting sent printed
udp_loop rcv_buf sent printed ((none, ok) ∷ rs) = failed sent printed
udp_loop rcv_buf sent printed ((some datagram, ok) ∷ rs) =
    let bytes = take size_buf datagram in
    after_round (udp_round (overlay bytes rcv_buf) (length bytes)) (memory_error sent printed)
      (λ rcv_buf' out line.
        let rest = udp_loop rcv_buf' (sent ++ out) (printed ++ line) rs in
        if sent_well ok out then rest else failed (sent ++ out) (printed ++ line))

-- `main` of the UDP server, from a socket that `socket` gave on.
unfoldable pub udp_server :
    (rcv_buf : Bytes) → (socket_ok : Bool) → List (Option Bytes × Bool) → Served
unfolding udp_loop
udp_server rcv_buf socket_ok rs = if socket_ok then udp_loop rcv_buf [] [] rs else failed [] []
