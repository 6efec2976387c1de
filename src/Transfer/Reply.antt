-- ===== src/Transfer/Reply.antt =====
-- What `sendReqOK` answers.
use Prim.Native.Nat.{ℕ}
use linux_app_samp.Base.{
  ◌==◌, if◌then◌else◌, Bool-cases, length, set, replicate, length-append, length-set,
  length-replicate, Bytes, overlay, length-overlay, codes, c_str, str_copy, IsText, IsText-append,
  c_str-overlay_zero, get_or-last, c_str-set_last, str_cat_ok, ◌+◌, ◌≤◌, ◌<◌, ◌≡◌, inl, inr, some,
  [], ◌∷◌, ◌++◌, arith,
}
use linux_app_samp.Transfer.Wire.{size_packet_buf}
use linux_app_samp.Transfer.Request.{size_rcv_buf, remove_lf, send_req_ok}

-- The request without a line feed at its end.
abbrev pub trim : Bytes → ℕ → Bytes
trim s x = if x == 10 then s else s ++ x ∷ []

pub remove_lf_ok :
    (s dst : Bytes) (x : ℕ)
    → IsText s
    → 0 < x
    → length s + 1 < length dst
    → (buf : Bytes) × (remove_lf (overlay ((s ++ x ∷ []) ++ 0 ∷ []) dst) (length s + 2) ≡ some buf)
      × (c_str buf ≡ some (trim s x))
      × (length buf ≡ length dst)
unfolding remove_lf
remove_lf_ok s dst x h p q =
    let copied : Bytes = overlay ((s ++ x ∷ []) ++ 0 ∷ []) dst in
    let same : length copied ≡ length dst = length-overlay _ dst in
    elim (Bool-cases (x == 10)) [
      | inl lf ↦ (
        set copied (length s) 0,
        ground (arith, get_or-last s dst x q),
        rw lf (c_str-set_last s dst x h q),
        omega (arith, length-set copied (length s) 0),
      )
      | inr plain ↦ (
        copied,
        ground (arith, get_or-last s dst x q),
        rw plain (
            c_str-overlay_zero (s ++ x ∷ []) dst (IsText-append s (x ∷ []) h (p, tt))
              (omega (arith, length-append s (x ∷ [])))),
        same,
      )
    ]

pub length-trim : (s : Bytes) (x : ℕ) → length (trim s x) ≤ length s + 1
length-trim s x = ground (arith, length-append s (x ∷ []))

pub IsText-trim : (s : Bytes) (x : ℕ) → IsText s → 0 < x → IsText (trim s x)
IsText-trim s x h q = elim (Bool-cases (x == 10)) [
  | inl lf ↦ rw lf h
  | inr plain ↦ rw plain (IsText-append s (x ∷ []) h (q, tt))
]

str_copy-fits :
    (t dst : Bytes) → length t < length dst → str_copy dst t ≡ some (overlay (t ++ 0 ∷ []) dst)
unfolding str_copy
str_copy-fits t dst h = ground arith

-- A request of one byte or more, which arrives with the zero behind it, is answered by its own text,
-- less a line feed at its end, and `,OK`, with a zero behind; whatever else stands in `rxBuf`.
pub send_req_ok_reply :
    (s rx_buf : Bytes) (x : ℕ)
    → IsText s
    → 0 < x
    → length rx_buf ≡ size_rcv_buf
    → length s + 1 < size_rcv_buf
    → send_req_ok (overlay ((s ++ x ∷ []) ++ 0 ∷ []) rx_buf) (length s + 2)
      ≡ some ((trim s x ++ codes ",OK") ++ 0 ∷ [])
unfolding send_req_ok
send_req_ok_reply s rx_buf x h q e p =
    let zeros : Bytes = replicate size_packet_buf 0 in
    let room : length zeros ≡ size_packet_buf = length-replicate {A = ℕ} size_packet_buf 0 in
    let size : length (s ++ x ∷ []) ≡ length s + 1 = length-append s (x ∷ []) in
    let text : IsText (s ++ x ∷ []) = IsText-append s (x ∷ []) h (q, tt) in
    let request = c_str-overlay_zero (s ++ x ∷ []) rx_buf text (omega arith) in
    let copied = str_copy-fits (s ++ x ∷ []) zeros (omega arith) in
    let (trimmed, removed, kept, long) = remove_lf_ok s zeros x h q (omega arith) in
    let (tx_buf, joined, read) =
      str_cat_ok trimmed (trim s x) (codes ",OK") kept (IsText-trim s x h q) (omega arith)
        (omega (arith, length-trim s x)) in
    ground (arith, request, copied, removed, joined, read)
