-- ===== src/Echo/Session.antt =====
-- The TCP client and the TCP server together.
use linux_app_samp.Base.{
  ltb, if◌then◌else◌, Bool-cases, length, replicate, length-append, append_assoc, append_nil,
  take_all, Bytes, overlay, length-overlay, codes, c_str, str_copy, is_prefix, contains, IsText,
  c_str-overlay_zero, ℕ, zero, suc, ◌<◌, ◌≡◌, refl, ap, ◌∙◌, inl, inr, some, List, [], ◌∷◌, ◌++◌,
  map, arith,
}
use linux_app_samp.Echo.Server.{size_buf, waiting, tcp_server}
use linux_app_samp.Echo.Client.{
  request, Ended, finished, memory_error, tx_line, tcp_show, stored, after_show, tcp_rounds,
  addressed, tcp_client,
}
use linux_app_samp.Echo.Replies.{Request, IsRequest}
use linux_app_samp.Echo.Loops.{tcp_loop-replies}

-- The lines of `n` rounds that each get `text`.
abbrev pub round_lines : ℕ → Bytes → List Bytes
round_lines zero text = []
round_lines (suc n) text = tx_line ∷ (codes "rx:" ++ text) ∷ round_lines n text

tcp_show-text :
    (text buf : Bytes)
    → c_str buf ≡ some text
    → tcp_show buf (some (text ++ 0 ∷ [])) ≡ some ((codes "rx:" ++ text) ∷ [])
unfolding tcp_show
tcp_show-text [] buf e = rw (e, tcp_show)
tcp_show-text (x ∷ text) buf e = rw (e, tcp_show)

tcp_rounds-replies :
    (n : ℕ) (text buf : Bytes) (sent printed : List Bytes)
    → IsText text
    → length text < size_buf
    → length buf ≡ size_buf
    → tcp_rounds n buf sent printed (replicate n (some (text ++ 0 ∷ [])))
      ≡ finished (sent ++ replicate n request) (printed ++ round_lines n text)
unfolding tcp_rounds replicate
tcp_rounds-replies zero text buf sent printed h p q = rw (append_nil sent, append_nil printed)
tcp_rounds-replies (suc n) text buf sent printed h p q =
    let bytes : Bytes = text ++ 0 ∷ [] in
    let buf' : Bytes = overlay bytes buf in
    let whole : stored (some bytes) buf ≡ buf' =
      ap (λ b. overlay b buf) (take_all 200 bytes (omega (arith, length-append text (0 ∷ [])))) in
    let wrong : Ended = memory_error (sent ++ request ∷ []) (printed ++ tx_line ∷ []) in
    let k : Bytes → List Bytes → Ended = λ b lines.
      tcp_rounds n b (sent ++ request ∷ []) (printed ++ tx_line ∷ lines)
        (replicate n (some bytes)) in
    ap (λ b. after_show (tcp_show b (some bytes)) wrong (k b)) whole
    ∙ ap (λ o. after_show o wrong (k buf'))
        (tcp_show-text text buf' (c_str-overlay_zero text buf h (omega arith)))
    ∙ tcp_rounds-replies n text buf' (sent ++ request ∷ [])
        (printed ++ tx_line ∷ (codes "rx:" ++ text) ∷ []) h p (length-overlay bytes buf ∙ q)
    ∙ rw (
      append_assoc sent (request ∷ []) (replicate n request),
      append_assoc printed (tx_line ∷ (codes "rx:" ++ text) ∷ []) (round_lines n text),
    )

-- The request that the clients send.
abbrev pub req : Request
req = record { body = codes "req"; last = 10 }

pub req-IsRequest : IsRequest req
unfolding contains is_prefix
req-IsRequest = record {
  text = omega arith;
  last_text = omega arith;
  asks = refl;
  fits = omega arith;
}

address_cases :
    (arg : Bytes) (rest : Ended)
    → addressed (str_copy (replicate 80 0) arg) rest
      ≡ (if ltb (length arg) 80 then rest else memory_error [] [])
unfolding str_copy replicate
address_cases arg rest = elim (Bool-cases (ltb (length arg) 80)) [
  | inl fits ↦ rw fits refl
  | inr long ↦ rw long refl
]

-- Where the three requests of the TCP client, each `req`, a line feed and a zero, arrive whole at the
-- TCP server, and its replies whole at the client, the server replies to each and waits for more, and
-- the client with an address of less than 80 bytes ends its three rounds and shows `req,OK` in each,
-- whatever the two buffers of 200 bytes held before. With a longer address the client writes behind
-- its array before it sends anything.
pub tcp_session :
    (dest_ip peer server_buf client_buf : Bytes)
    → length server_buf ≡ size_buf
    → length client_buf ≡ size_buf
    → (tcp_server server_buf peer (map some (replicate 3 (codes "req\n" ++ 0 ∷ [])))
        ≡ waiting (replicate 3 (codes "req,OK\n" ++ 0 ∷ [])) (
            codes "before accept\n"
            ∷ (codes "after accept " ++ (peer ++ 10 ∷ []))
            ∷ replicate 3 (codes "rx: req,OK\n")))
      × (tcp_client (some dest_ip) client_buf (map some (replicate 3 (codes "req,OK\n" ++ 0 ∷ [])))
          ≡ (if ltb (length dest_ip) 80
              then finished (replicate 3 (codes "req\n" ++ 0 ∷ [])) (
                  (codes "to " ++ (dest_ip ++ 10 ∷ []))
                  ∷ codes "tx:req\n"
                  ∷ codes "rx:req,OK\n"
                  ∷ codes "tx:req\n"
                  ∷ codes "rx:req,OK\n"
                  ∷ codes "tx:req\n"
                  ∷ codes "rx:req,OK\n"
                  ∷ [])
              else memory_error [] []))
unfolding tcp_server tcp_client replicate
tcp_session dest_ip peer server_buf client_buf p q = (
  tcp_loop-replies (replicate 3 req) server_buf []
      (codes "before accept\n" ∷ (codes "after accept " ++ (peer ++ 10 ∷ [])) ∷ [])
      (req-IsRequest, (req-IsRequest, (req-IsRequest, tt))) p,
  address_cases dest_ip _
      ∙ ap (λ ended. if ltb (length dest_ip) 80 then ended else memory_error [] [])
          (tcp_rounds-replies 3 (codes "req,OK\n") client_buf []
            ((codes "to " ++ (dest_ip ++ 10 ∷ [])) ∷ []) (omega arith) (omega arith) q),
)
