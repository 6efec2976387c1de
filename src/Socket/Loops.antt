-- ===== src/Socket/Loops.antt =====
-- The clients that send three texts, and the servers that print what they receive. What the network does
-- is a parameter: the results of `recv` and `recvfrom`, where `none` is -1 and no bytes the end of a
-- connection, or an empty datagram. The calls that set a socket up are not looked at by the code.
use linux_app_samp.Base.{
  if◌then◌else◌, take, replicate, Bytes, overlay, codes, c_str, str_copy, ℕ, zero, suc, Bool, true,
  false, Option, none, some, List, [], ◌∷◌, ◌++◌,
}

abbrev pub size_buf : ℕ
size_buf = 200

abbrev pub to_send_text : Bytes
to_send_text = codes "test message"

-- What a client has sent and printed at its end; or it has written behind its array.
pub data Ended : Type 0 where
  finished : (sent printed : List Bytes) → Ended
  memory_error : Ended

-- The loop of both clients, which sends the zero of the text with it.
unfoldable pub tx_loop : ℕ → (sent printed : List Bytes) → Ended
tx_loop zero sent printed = finished sent printed
tx_loop (suc loops) sent printed =
    tx_loop loops (sent ++ (to_send_text ++ 0 ∷ []) ∷ [])
      (printed ++ (codes "tx:" ++ (to_send_text ++ 10 ∷ [])) ∷ [])

abbrev pub copied : Option Bytes → (arg : Bytes) → Ended
copied none arg = memory_error
copied (some dest_ip) arg = tx_loop 3 [] ((codes "to " ++ (arg ++ 10 ∷ [])) ∷ [])

-- `main` of both clients for `argv[1]`, which `strcpy` takes without looking at its length.
unfoldable pub client : Option Bytes → Ended
unfolding tx_loop str_copy
client none = finished [] (codes "[cmd] [dest IP addr]\n" ∷ codes "e.g. ./a.out 127.0.0.1\n" ∷ [])
client (some arg) = copied (str_copy (replicate 80 0) arg) arg

-- Where a server stands: it waits, it has closed its socket, or `printf` has read behind the array.
pub data Heard : Type 0 where
  waiting : (printed : List Bytes) → Heard
  closed : (printed : List Bytes) → Heard
  over_the_end : (printed : List Bytes) → Heard

-- The TCP server ends at -1 and at the end of the connection, the UDP server only at -1.
abbrev pub ends : (tcp : Bool) → Option Bytes → Bool
ends tcp none = true
ends tcp (some []) = tcp
ends tcp (some (b ∷ bs)) = false

abbrev pub received : Option Bytes → Bytes → Bytes
received none buf = buf
received (some bytes) buf = overlay (take size_buf bytes) buf

-- `printf("rx: %s\n", szBuf)`
abbrev pub rx_line : Bytes → Bytes
rx_line text = codes "rx: " ++ (text ++ 10 ∷ [])

abbrev pub rx_show : Option Bytes → (printed : List Bytes) → (List Bytes → Heard) → Heard
rx_show none printed k = over_the_end printed
rx_show (some text) printed k = k (printed ++ rx_line text ∷ [])

-- The loop of both servers. The array keeps its bytes from one round to the next.
unfoldable pub rx_loop : (tcp : Bool) → Bytes → (printed : List Bytes) → List (Option Bytes) → Heard
unfolding c_str
rx_loop tcp buf printed [] = waiting printed
rx_loop tcp buf printed (r ∷ rs) =
    let buf' = received r buf in
    let later = rx_show (c_str buf') printed (λ lines. rx_loop tcp buf' lines rs) in
    if ends tcp r then closed printed else later

-- `main` of the TCP server, with what the array holds at first and what `inet_ntoa` gives.
unfoldable pub tcp_server : (buf peer : Bytes) → List (Option Bytes) → Heard
unfolding rx_loop
tcp_server buf peer =
    rx_loop true buf (codes "before accept\n" ∷ (codes "after accept " ++ (peer ++ 10 ∷ [])) ∷ [])

-- `main` of the UDP server.
unfoldable pub udp_server : (buf : Bytes) → List (Option Bytes) → Heard
unfolding rx_loop
udp_server buf = rx_loop false buf []
