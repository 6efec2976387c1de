-- ===== src/Echo/Loops.antt =====
-- The loops of the servers on lists of requests.
use linux_app_samp.Base.{
  if◌then◌else◌, length, append_assoc, append_nil, take_all, Bytes, overlay, ◌≤◌, ◌<◌, ◌≡◌, ap, ◌∙◌,
  Bool, true, Option, some, List, [], ◌∷◌, ◌++◌, map, arith,
}
use linux_app_samp.Echo.Server.{
  size_buf, Served, waiting, failed, memory_error, after_round, rx_line, tcp_round, tcp_loop,
  udp_round, udp_loop, sent_well,
}
use linux_app_samp.Echo.Replies.{
  Request, IsRequest, text_of, message, ok_text, ok_reply, length-message, tcp_round_ok,
  udp_round_ok,
}

abbrev pub AllRequests : List Request → Type 0
AllRequests [] = Unit
AllRequests (r ∷ rs) = IsRequest r × AllRequests rs

-- One `recv` that has got a whole message.
tcp_loop-round :
    (bytes rcv_buf rcv_buf' reply line : Bytes) (sent printed : List Bytes)
    (rs : List (Option Bytes))
    → 0 < length bytes
    → length bytes ≤ size_buf
    → tcp_round (overlay bytes rcv_buf) (length bytes) ≡ some (rcv_buf', reply ∷ [], line ∷ [])
    → tcp_loop rcv_buf sent printed (some bytes ∷ rs)
      ≡ tcp_loop rcv_buf' (sent ++ reply ∷ []) (printed ++ line ∷ []) rs
unfolding tcp_loop
tcp_loop-round [] rcv_buf rcv_buf' reply line sent printed rs p q e = absurd (omega arith)
tcp_loop-round (b ∷ bs) rcv_buf rcv_buf' reply line sent printed rs p q e =
    let wrong : Served = memory_error sent printed in
    let k : Bytes → List Bytes → List Bytes → Served =
      λ buf out line. tcp_loop buf (sent ++ out) (printed ++ line) rs in
    ap (λ bytes. after_round (tcp_round (overlay bytes rcv_buf) (length bytes)) wrong k)
      (take_all size_buf (b ∷ bs) q)
    ∙ ap (λ o. after_round o wrong k) e

message-fits :
    (r : Request) → IsRequest r → (0 < length (message r)) × (length (message r) ≤ size_buf)
message-fits r ok = omega (arith, length-message r, ok.fits)

-- Where every `recv` of the TCP server gets a whole request, from whatever its buffer holds, it sends
-- each back in order, without its line feed and with `,OK`, prints the same, and goes on.
pub tcp_loop-replies :
    (requests : List Request) (rcv_buf : Bytes) (sent printed : List Bytes)
    → AllRequests requests
    → length rcv_buf ≡ size_buf
    → tcp_loop rcv_buf sent printed (map (λ r. some (message r)) requests)
      ≡ waiting (sent ++ map ok_reply requests) (printed ++ map (λ r. rx_line (ok_text r)) requests)
unfolding tcp_loop
tcp_loop-replies [] rcv_buf sent printed ok size = rw (append_nil sent, append_nil printed)
tcp_loop-replies (r ∷ rs) rcv_buf sent printed ok size =
    let (joined, answered, long) = tcp_round_ok r ok.0 rcv_buf size in
    let (some_bytes, fits) = message-fits r ok.0 in
    tcp_loop-round (message r) rcv_buf joined (ok_reply r) (rx_line (ok_text r)) sent printed _
      some_bytes fits answered
    ∙ tcp_loop-replies rs joined (sent ++ ok_reply r ∷ []) (printed ++ rx_line (ok_text r) ∷ [])
        ok.1 long
    ∙ rw (
      append_assoc sent (ok_reply r ∷ []) (map ok_reply rs),
      append_assoc printed (rx_line (ok_text r) ∷ []) (map (λ r. rx_line (ok_text r)) rs),
    )

udp_loop-round :
    (bytes rcv_buf rcv_buf' reply line : Bytes) (sent printed : List Bytes)
    (rs : List (Option Bytes × Bool))
    → length bytes ≤ size_buf
    → udp_round (overlay bytes rcv_buf) (length bytes) ≡ some (rcv_buf', reply ∷ [], line ∷ [])
    → udp_loop rcv_buf sent printed ((some bytes, true) ∷ rs)
      ≡ udp_loop rcv_buf' (sent ++ reply ∷ []) (printed ++ line ∷ []) rs
unfolding udp_loop
udp_loop-round bytes rcv_buf rcv_buf' reply line sent printed rs q e =
    let wrong : Served = memory_error sent printed in
    let k : Bytes → List Bytes → List Bytes → Served = λ buf out line.
      let rest = udp_loop buf (sent ++ out) (printed ++ line) rs in
      if sent_well true out then rest else failed (sent ++ out) (printed ++ line) in
    ap (λ bytes. after_round (udp_round (overlay bytes rcv_buf) (length bytes)) wrong k)
      (take_all size_buf bytes q)
    ∙ ap (λ o. after_round o wrong k) e

-- Where every `recvfrom` of the UDP server gets a whole request and every `sendto` succeeds, from
-- whatever its buffer holds, it sends each back in order, without its line feed and with `,OK`, prints
-- each as it came, and goes on.
pub udp_loop-replies :
    (requests : List Request) (rcv_buf : Bytes) (sent printed : List Bytes)
    → AllRequests requests
    → length rcv_buf ≡ size_buf
    → udp_loop rcv_buf sent printed (map (λ r. (some (message r), true)) requests)
      ≡ waiting (sent ++ map ok_reply requests) (printed ++ map (λ r. rx_line (text_of r)) requests)
unfolding udp_loop
udp_loop-replies [] rcv_buf sent printed ok size = rw (append_nil sent, append_nil printed)
udp_loop-replies (r ∷ rs) rcv_buf sent printed ok size =
    let (joined, answered, long) = udp_round_ok r ok.0 rcv_buf size in
    let (some_bytes, fits) = message-fits r ok.0 in
    udp_loop-round (message r) rcv_buf joined (ok_reply r) (rx_line (text_of r)) sent printed _ fits
      answered
    ∙ udp_loop-replies rs joined (sent ++ ok_reply r ∷ []) (printed ++ rx_line (text_of r) ∷ [])
        ok.1 long
    ∙ rw (
      append_assoc sent (ok_reply r ∷ []) (map ok_reply rs),
      append_assoc printed (rx_line (text_of r) ∷ []) (map (λ r. rx_line (text_of r)) rs),
    )
