-- ===== src/Echo/Client.antt =====
-- The two clients, from the address of the server on, which `strcpy` takes without looking at its
-- length. They run three rounds, whatever they receive.
use linux_app_samp.Base.{
  length, take, replicate, Bytes, overlay, codes, c_str, str_copy, ℕ, zero, suc, Option, none, some,
  List, [], ◌∷◌, ◌++◌,
}
use linux_app_samp.Transfer.Request.{remove_lf}

abbrev pub request : Bytes
request = codes "req\n" ++ 0 ∷ []

-- All a client has sent and printed, in order, at its end or where it waits; or it has accessed memory
-- outside of its array.
pub data Ended : Type 0 where
  finished : (sent printed : List Bytes) → Ended
  waiting : (sent printed : List Bytes) → Ended
  memory_error : (sent printed : List Bytes) → Ended

abbrev pub tx_line : Bytes
tx_line = codes "tx:req\n"

-- What a round does with the result of `recv`: it prints what the buffer holds unless nothing was
-- received; after an error, which is -1, it prints what was there before.
unfoldable pub tcp_show : Bytes → Option Bytes → Option (List Bytes)
tcp_show buf (some []) = some []
tcp_show buf _ = elim (c_str buf) [ none ↦ none | some text ↦ some ((codes "rx:" ++ text) ∷ []) ]

abbrev pub stored : Option Bytes → Bytes → Bytes
stored none buf = buf
stored (some bytes) buf = overlay (take 200 bytes) buf

-- What follows a round, if it has not gone wrong.
abbrev pub after_show : {A : Type 0} → Option A → Ended → (A → Ended) → Ended
after_show none wrong k = wrong
after_show (some shown) wrong k = k shown

-- `rounds` rounds of the TCP client, for the results of `recv`.
unfoldable pub tcp_rounds : ℕ → Bytes → (sent printed : List Bytes) → List (Option Bytes) → Ended
unfolding tcp_show
tcp_rounds zero buf sent printed rs = finished sent printed
tcp_rounds (suc rounds) buf sent printed [] =
    waiting (sent ++ request ∷ []) (printed ++ tx_line ∷ [])
tcp_rounds (suc rounds) buf sent printed (r ∷ rs) =
    let buf' = stored r buf in
    after_show (tcp_show buf' r) (memory_error (sent ++ request ∷ []) (printed ++ tx_line ∷ []))
      (λ lines. tcp_rounds rounds buf' (sent ++ request ∷ []) (printed ++ tx_line ∷ lines) rs)

-- `strcpy(destIP, argv[1])` into 80 bytes, and what follows it.
abbrev pub addressed : Option Bytes → Ended → Ended
addressed none rest = memory_error [] []
addressed (some dest_ip) rest = rest

-- `main` of the TCP client: without an address it says how to call it.
unfoldable pub tcp_client : Option Bytes → (buf : Bytes) → List (Option Bytes) → Ended
unfolding tcp_rounds str_copy
tcp_client none buf rs =
    finished [] (codes "[cmd] [dest IP addr]\n" ∷ codes "e.g. ./a.out 127.0.0.1\n" ∷ [])
tcp_client (some dest_ip) buf rs =
    addressed (str_copy (replicate 80 0) dest_ip)
      (tcp_rounds 3 buf [] ((codes "to " ++ (dest_ip ++ 10 ∷ [])) ∷ []) rs)

-- The UDP client: after -1 it shows nothing; else it takes the line feed off, and shows the buffer. The
-- buffer and the lines.
unfoldable pub udp_show : Bytes → Option Bytes → Option (Bytes × List Bytes)
udp_show buf none = some (buf, [])
udp_show buf (some bytes) =
    elim (remove_lf (overlay (take 200 bytes) buf) (length (take 200 bytes))) [
      | none ↦ none
      | some buf' ↦ elim (c_str buf') [
        | none ↦ none
        | some text ↦ some (buf', (codes "rx:" ++ (text ++ 10 ∷ [])) ∷ [])
      ]
    ]

unfoldable pub udp_rounds : ℕ → Bytes → (sent printed : List Bytes) → List (Option Bytes) → Ended
unfolding udp_show
udp_rounds zero buf sent printed rs = finished sent printed
udp_rounds (suc rounds) buf sent printed [] =
    waiting (sent ++ request ∷ []) (printed ++ tx_line ∷ [])
udp_rounds (suc rounds) buf sent printed (r ∷ rs) =
    after_show (udp_show buf r) (memory_error (sent ++ request ∷ []) (printed ++ tx_line ∷ []))
      (λ shown.
        let (buf', lines) = shown in
        udp_rounds rounds buf' (sent ++ request ∷ [])
          (printed ++ tx_line ∷ (lines ++ codes "---\n" ∷ [])) rs)

unfoldable pub udp_client : Option Bytes → (buf : Bytes) → List (Option Bytes) → Ended
unfolding udp_rounds str_copy
udp_client none buf rs =
    finished [] (codes "[cmd] [dest IP addr]\n" ∷ codes "e.g. ./a.out 127.0.0.1\n" ∷ [])
udp_client (some dest_ip) buf rs =
    addressed (str_copy (replicate 80 0) dest_ip)
      (udp_rounds 3 buf [] ((codes "to " ++ (dest_ip ++ 10 ∷ [])) ∷ []) rs)
