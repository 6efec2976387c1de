-- ===== src/Queue/Transfer.antt =====
-- The loops of `s_send` and `s_rcv` on a queue.
use linux_app_samp.Base.{
  c_str-overlay, drop-overlay, ltb, ltb→lt, Bool-cases, length, drop, replicate, length-append,
  append_assoc, append_nil, Bytes, overlay, length-overlay, c_str, IsText, ℕ, zero, suc, ◌+◌, ◌≤◌,
  ◌<◌, ◌≡◌, refl, sym, ap, ◌∙◌, inl, inr, some, List, [], ◌∷◌, ◌++◌, arith,
}
use linux_app_samp.Queue.Mq.{
  World, done, blocked, Act, and_then, ◌>>◌, mq_send, mq_receive, take_first,
}
use linux_app_samp.Queue.Programs.{sent_line, send_loop, Shows, rcv_loop}

replicate-cons :
    {A : Type 0} (n : ℕ) (x : A) (xs : List A) → x ∷ (replicate n x ++ xs) ≡ replicate n x ++ x ∷ xs
unfolding replicate
replicate-cons zero x xs = refl
replicate-cons (suc n) x xs = ap (λ ys. x ∷ ys) (replicate-cons n x xs)

abbrev pub with_msgs : List Bytes → List Bytes → World → World
with_msgs msgs lines w = record w { mq = record w.mq { msgs = msgs }; lines = lines }

module _ (msg : Bytes) (w : World) (p : length msg ≤ w.mq.msgsize) where
  mq_send-room :
      length w.mq.msgs < w.mq.maxmsg
      → mq_send msg w ≡ done tt (with_msgs (w.mq.msgs ++ msg ∷ []) w.lines w)
  unfolding mq_send
  mq_send-room q = ground arith

  mq_send-full : w.mq.maxmsg ≤ length w.mq.msgs → mq_send msg w ≡ blocked
  unfolding mq_send
  mq_send-full q = ground arith

abbrev said : Bytes → World → World
said line w = record w { lines = line ∷ w.lines }

abbrev sent : Bytes → World → World
sent msg w = with_msgs (w.mq.msgs ++ msg ∷ []) (sent_line msg ∷ w.lines) w

send_loop-suc :
    (n : ℕ) (msg : Bytes) (w : World)
    → length msg ≤ w.mq.msgsize
    → length w.mq.msgs < w.mq.maxmsg
    → send_loop (suc n) msg w ≡ send_loop n msg (sent msg w)
unfolding send_loop
send_loop-suc n msg w p q =
    ap (λ o. and_then o (λ u. send_loop n msg)) (mq_send-room msg (said (sent_line msg) w) p q)

-- `s_send` on a queue with room for all its messages puts them behind those that are there; without
-- the room it blocks for ever, as nobody else receives.
pub send_loop-fits :
    (n : ℕ) (msg : Bytes) (w : World)
    → length msg ≤ w.mq.msgsize
    → length w.mq.msgs + n ≤ w.mq.maxmsg
    → send_loop n msg w
      ≡ done tt
          (with_msgs (w.mq.msgs ++ replicate n msg) (replicate n (sent_line msg) ++ w.lines) w)
unfolding send_loop replicate
send_loop-fits zero msg w p q = rw (append_nil w.mq.msgs)
send_loop-fits (suc n) msg w p q =
    send_loop-suc n msg w p (omega arith)
    ∙ send_loop-fits n msg (sent msg w) p (omega (arith, length-append w.mq.msgs (msg ∷ [])))
    ∙ rw (
      append_assoc w.mq.msgs (msg ∷ []) (replicate n msg),
      replicate-cons n (sent_line msg) w.lines,
    )

pub send_loop-blocks :
    (n : ℕ) (msg : Bytes) (w : World)
    → length msg ≤ w.mq.msgsize
    → length w.mq.msgs ≤ w.mq.maxmsg
    → w.mq.maxmsg < length w.mq.msgs + n
    → send_loop n msg w ≡ blocked
unfolding send_loop
send_loop-blocks zero msg w p r q = absurd (omega arith)
send_loop-blocks (suc n) msg w p r q = elim (Bool-cases (ltb (length w.mq.msgs) w.mq.maxmsg)) [
  | inl room ↦
      send_loop-suc n msg w p (ltb→lt (length w.mq.msgs) w.mq.maxmsg room)
      ∙ send_loop-blocks n msg (sent msg w) p
          (omega
            (arith, length-append w.mq.msgs (msg ∷ []), ltb→lt (length w.mq.msgs) w.mq.maxmsg room))
          (omega (arith, length-append w.mq.msgs (msg ∷ [])))
  | inr full ↦
      ap (λ o. and_then o (λ u. send_loop n msg))
        (mq_send-full msg (said (sent_line msg) w) p (ground arith))
]

-- The loop of `s_rcv` on `n` copies of one text. `add` is what one message adds to the lines.
module _ (show : Shows) (add : ℕ → List Bytes → List Bytes) (msg text : Bytes) where
  abbrev pub Showing : Type 0
  Showing =
      (loop : ℕ) (buf : Bytes) (w : World)
      → c_str buf ≡ some text
      → show loop (length msg) buf w ≡ done tt (with_msgs w.mq.msgs (add loop w.lines) w)

  -- The lines of `n` messages from the number `loop` on.
  abbrev pub shown_from : ℕ → ℕ → List Bytes → List Bytes
  shown_from zero loop lines = lines
  shown_from (suc n) loop lines = shown_from n (suc loop) (add loop lines)

  pub rcv_loop-copies :
      Showing
      → (tail : Bytes) → text ≡ msg ++ tail
      → IsText msg
      → (n loop : ℕ) (buf : Bytes) (w : World) → length msg ≤ length buf
      → c_str (drop (length msg) buf) ≡ some tail
      → w.mq.msgs ≡ replicate n msg
      → rcv_loop show n loop buf w ≡ done tt (with_msgs [] (shown_from n loop w.lines) w)
  unfolding rcv_loop mq_receive replicate
  rcv_loop-copies shows tail split is_text zero loop buf w fits rest all =
      ap (λ ms. done tt (with_msgs ms w.lines w)) all
  rcv_loop-copies shows tail split is_text (suc n) loop buf w fits rest all =
      let buf' : Bytes = overlay msg buf in
      let w1 : World = with_msgs (replicate n msg) w.lines w in
      let w2 : World = with_msgs (replicate n msg) (add loop w.lines) w in
      let holds : c_str buf' ≡ some text =
        c_str-overlay msg buf tail is_text fits rest ∙ ap some (sym split) in
      let more : Bytes → Act (Unit {0}) = rcv_loop show n (suc loop) in
      ap (λ ms. and_then (take_first buf ms w) (λ r. show loop r.0 r.1 >> more r.1)) all
      ∙ ap (λ o. and_then o (λ u. more buf')) (shows loop buf' w1 holds)
      ∙ rcv_loop-copies shows tail split is_text n (suc loop) buf' w2
          (omega (arith, length-overlay msg buf)) (ap c_str (drop-overlay msg buf) ∙ rest) refl
