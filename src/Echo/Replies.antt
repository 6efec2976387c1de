-- ===== src/Echo/Replies.antt =====
-- The replies of the servers to requests that arrive whole.
use linux_app_samp.Base.{
  length, length-append, Bytes, overlay, length-overlay, codes, c_str, str_copy, str_cat, contains,
  IsText, IsText-append, c_str-overlay_zero, ℕ, ◌+◌, ◌<◌, ◌≡◌, ap, ◌∙◌, true, some, [], ◌∷◌, ◌++◌,
  arith,
}
use linux_app_samp.Transfer.Request.{remove_lf}
use linux_app_samp.Transfer.Reply.{trim, remove_lf_ok, length-trim, IsText-trim}
use linux_app_samp.Echo.Server.{size_buf, put_ok, rx_line, tcp_round, udp_round}

str_cat-fits :
    (dst t text : Bytes)
    → c_str dst ≡ some t
    → length t + length text < length dst
    → str_cat dst text ≡ some (overlay ((t ++ text) ++ 0 ∷ []) dst)
unfolding str_cat str_copy
str_cat-fits dst t text e p = ground (arith, length-append t text)

-- A request: its text without the last byte, and that byte.
pub record Request : Type 0 where
  pub body : Bytes
  pub last : ℕ

abbrev pub text_of : Request → Bytes
text_of r = r.body ++ r.last ∷ []

-- What a client sends: the text and its zero.
abbrev pub message : Request → Bytes
message r = text_of r ++ 0 ∷ []

-- The text without a line feed at its end, and `,OK`.
abbrev pub ok_text : Request → Bytes
ok_text r = trim r.body r.last ++ codes ",OK\n"

abbrev pub ok_reply : Request → Bytes
ok_reply r = ok_text r ++ 0 ∷ []

-- No zero in the text, which contains `req`; the reply fits in the buffer.
pub record IsRequest (r : Request) : Type 0 where
  pub text : IsText r.body
  pub last_text : 0 < r.last
  pub asks : contains (codes "req") (text_of r) ≡ true
  pub fits : length r.body + 5 < size_buf

pub length-message : (r : Request) → length (message r) ≡ length r.body + 2
length-message r =
    omega (arith, length-append r.body (r.last ∷ []), length-append (text_of r) (0 ∷ []))

module _ (r : Request) (ok : IsRequest r) (rcv_buf : Bytes) (size : length rcv_buf ≡ size_buf) where
  abbrev pub arrived : Bytes
  arrived = overlay (message r) rcv_buf

  arrived-c_str : c_str arrived ≡ some (text_of r)
  arrived-c_str =
      c_str-overlay_zero (text_of r) rcv_buf
        (IsText-append r.body (r.last ∷ []) ok.text (ok.last_text, tt))
        (omega (arith, ok.fits, length-append r.body (r.last ∷ [])))

  abbrev Joined : Bytes → Type 0
  Joined joined =
      (put_ok arrived (length (message r)) ≡ some (joined, ok_reply r))
      × (c_str joined ≡ some (ok_text r))
      × (length joined ≡ size_buf)

  put_ok_ok : (joined : Bytes) × Joined joined
  unfolding put_ok
  put_ok_ok =
      let (trimmed, removed, kept, long) =
        remove_lf_ok r.body rcv_buf r.last ok.text ok.last_text (omega (arith, ok.fits)) in
      let removed' : remove_lf arrived (length (message r)) ≡ some trimmed =
        ap (remove_lf arrived) (length-message r) ∙ removed in
      let t : Bytes = trim r.body r.last in
      let short : length t + 4 < size_buf = omega (arith, ok.fits, length-trim r.body r.last) in
      let joined : Bytes = overlay ((t ++ codes ",OK\n") ++ 0 ∷ []) trimmed in
      let cat : str_cat trimmed (codes ",OK\n") ≡ some joined =
        str_cat-fits trimmed t (codes ",OK\n") kept (omega arith) in
      let read : c_str joined ≡ some (ok_text r) =
        c_str-overlay_zero (ok_text r) trimmed
          (IsText-append t (codes ",OK\n") (IsText-trim r.body r.last ok.text ok.last_text)
            (omega arith))
          (omega (arith, length-append t (codes ",OK\n"))) in
      (
        joined,
        (
          rw (removed', cat, read),
          read,
          omega (arith, length-overlay ((t ++ codes ",OK\n") ++ 0 ∷ []) trimmed),
        ),
      )

  pub tcp_round_ok :
      (joined : Bytes) × (tcp_round arrived (length (message r))
        ≡ some (joined, ok_reply r ∷ [], rx_line (ok_text r) ∷ []))
      × (length joined ≡ size_buf)
  unfolding tcp_round
  tcp_round_ok =
      let (joined, (put, read, long)) = put_ok_ok in
      (joined, rw (arrived-c_str, ok.asks, put, read), long)

  pub udp_round_ok :
      (joined : Bytes) × (udp_round arrived (length (message r))
        ≡ some (joined, ok_reply r ∷ [], rx_line (text_of r) ∷ []))
      × (length joined ≡ size_buf)
  unfolding udp_round
  udp_round_ok =
      let (joined, (put, read, long)) = put_ok_ok in
      (joined, rw (arrived-c_str, ok.asks, put), long)
