-- ===== src/Queue/Rounds.antt =====
-- What the programs show of the messages that they have sent to themselves.
use linux_app_samp.Base.{
  leb, leb→le, Bool-cases, length, drop, replicate, length-replicate, append-replicate, Bytes,
  codes, c_str, IsText, ℤ, pos, ℕ, ◌+◌, ◌≤◌, ◌<◌, ◌≡◌, refl, sym, ap, ◌∙◌, ◌↔◌, inl, inr, Bool,
  true, false, some, List, [], ◌∷◌, ◌++◌, arith,
}
use linux_app_samp.Base.Int.{is_neg}
use linux_app_samp.Os.Files.{int_eq}
use linux_app_samp.Queue.Mq.{
  World, Outcome, done, blocked, overrun, Act, and_then, ◌>>◌, show_attr, attr_lines,
}
use linux_app_samp.Queue.Programs.{
  msg_text, sent_line, send_loop, Shows, show_numbered, show_num, rcv_loop, s_rcv, close_queue,
  main_send_rcv,
}
use linux_app_samp.Queue.Shown.{
  add_numbered, add_num, show_numbered-Showing, show_num-Showing, numbered_lines, sized_lines,
  lines_before, numbered_lines-shown, sized_lines-shown, lines_before-attr,
}
use linux_app_samp.Queue.Transfer.{
  with_msgs, Showing, shown_from, rcv_loop-copies, send_loop-fits, send_loop-blocks,
}

-- Lines, newest first, after sending `n` messages and receiving all, with `m` there before.
abbrev pub all_lines :
    (ℕ → List Bytes → List Bytes) → Shows → ℕ → ℕ → Bytes → Bytes → World → List Bytes
all_lines add show m n msg text w = shown_from show add msg text (m + n) 0 (
    attr_lines (record w.mq { msgs = replicate (m + n) msg })
      (replicate n (sent_line msg) ++ w.lines))

-- The messages sent and received, for any way to show one.
pub send_rcv_shown :
    (show : Shows) (add : ℕ → List Bytes → List Bytes) (msg tail heap : Bytes) (m n : ℕ) (w : World)
    → Showing show add msg (msg ++ tail)
    → IsText msg
    → length msg ≤ w.mq.msgsize
    → length heap ≡ w.mq.msgsize
    → c_str (drop (length msg) heap) ≡ some tail
    → w.mq.msgs ≡ replicate m msg
    → m + n ≤ w.mq.maxmsg
    → (send_loop n msg >> s_rcv show heap) w
      ≡ done tt (with_msgs [] (all_lines add show m n msg (msg ++ tail) w) w)
unfolding s_rcv show_attr
send_rcv_shown show add msg tail heap m n w shows is_text fits size rest all room =
    let all' : w.mq.msgs ++ replicate n msg ≡ replicate (m + n) msg =
      ap (λ ms. ms ++ replicate n msg) all ∙ append-replicate m n msg in
    let counted : length (replicate (m + n) msg) ≡ m + n = length-replicate (m + n) msg in
    let lines : List Bytes = replicate n (sent_line msg) ++ w.lines in
    let w' : World =
      with_msgs (replicate (m + n) msg)
        (attr_lines (record w.mq { msgs = replicate (m + n) msg }) lines) w in
    ap (λ o. and_then o (λ u. s_rcv show heap))
      (send_loop-fits n msg w fits
        (omega (arith, ap (λ ms. length ms) all, length-replicate m msg)))
    ∙ ap (λ ms. s_rcv show heap (with_msgs ms lines w)) all'
    ∙ ap (λ k. rcv_loop show k 0 heap w') counted
    ∙ rcv_loop-copies show add msg (msg ++ tail) shows tail refl is_text (m + n) 0 heap w'
        (omega arith) rest refl

-- `n` copies of a text without a zero byte and no longer than a message may be, sent to a queue that
-- holds `m` of them and has room for all, and received into a buffer of the size of a message with a
-- zero behind the text: none of the calls blocks, the queue is empty afterwards, and the programs have
-- printed a line for each message sent, the three attributes, and one line (with its number) or two
-- (the first with its size) for each of the `m + n` messages. The text is shown with what the buffer
-- of `malloc` held behind it up to a zero (`tail`), since the messages are sent without theirs.
pub send_rcv :
    (msg tail heap : Bytes) (m n : ℕ) (w : World)
    → IsText msg
    → length msg ≤ w.mq.msgsize
    → length heap ≡ w.mq.msgsize
    → c_str (drop (length msg) heap) ≡ some tail
    → w.mq.msgs ≡ replicate m msg
    → m + n ≤ w.mq.maxmsg
    → ((send_loop n msg >> s_rcv show_numbered heap) w
        ≡ done tt
            (with_msgs [] (numbered_lines (msg ++ tail) (m + n) 0 (lines_before msg m n w)) w))
      × ((send_loop n msg >> s_rcv show_num heap) w
          ≡ done tt (
              with_msgs []
                (sized_lines (length msg) (msg ++ tail) (m + n) (lines_before msg m n w))
                w))
send_rcv msg tail heap m n w is_text fits size rest all room =
    let text : Bytes = msg ++ tail in
    let before : List Bytes =
      attr_lines (record w.mq { msgs = replicate (m + n) msg })
        (replicate n (sent_line msg) ++ w.lines) in
    let out : List Bytes → Outcome (Unit {0}) = λ lines. done tt (with_msgs [] lines w) in
    (
      send_rcv_shown show_numbered (add_numbered text) msg tail heap m n w
            (show_numbered-Showing msg text) is_text fits size rest all room
          ∙ ap out (numbered_lines-shown msg text (m + n) 0 before)
          ∙ ap (λ lines. out (numbered_lines text (m + n) 0 lines)) (lines_before-attr msg m n w),
      send_rcv_shown show_num (add_num msg text) msg tail heap m n w (show_num-Showing msg text)
            is_text fits size rest all room
          ∙ ap out (sized_lines-shown msg text (m + n) 0 before)
          ∙ ap (λ lines. out (sized_lines (length msg) text (m + n) lines))
              (lines_before-attr msg m n w),
    )

true_not_false : true ≡ false → ⊥
true_not_false e = ground (arith, e)

msg_text-IsText : IsText msg_text
msg_text-IsText = omega arith

abbrev is_blocked : Outcome ℤ → Bool
is_blocked (done a w) = false
is_blocked blocked = true
is_blocked overrun = false

close_queue-ends : (ret : ℤ) (w : World) → is_blocked (close_queue ret w) ≡ false
close_queue-ends ret w = elim (Bool-cases (int_eq ret (pos 0))) [
  | inl closed ↦ rw closed
  | inr failed ↦ rw failed
]

abbrev opened : World → World
opened w = record w { lines = codes "open ok\n" ∷ w.lines }

main_opened :
    (mqd ret : ℤ) (heap : Bytes) (w : World)
    → is_neg mqd ≡ false
    → main_send_rcv mqd ret heap w
      ≡ and_then ((send_loop 3 msg_text >> s_rcv show_num heap) (opened w)) (λ u. close_queue ret)
unfolding main_send_rcv
main_opened mqd ret heap w good = rw good

-- mqueue_1send_rcv.c with messages left over in its queue from before: it blocks for ever exactly if
-- they and its three are more than the queue takes.
pub main_send_rcv_iff :
    (mqd ret : ℤ) (tail heap : Bytes) (m : ℕ) (w : World)
    → is_neg mqd ≡ false
    → 12 ≤ w.mq.msgsize
    → length heap ≡ w.mq.msgsize
    → c_str (drop 12 heap) ≡ some tail
    → w.mq.msgs ≡ replicate m msg_text
    → m ≤ w.mq.maxmsg
    → (main_send_rcv mqd ret heap w ≡ blocked) ↔ (w.mq.maxmsg < m + 3)
main_send_rcv_iff mqd ret tail heap m w good size same rest all held =
    let start = main_opened mqd ret heap w good in
    let close : Unit {0} → Act ℤ = λ u. close_queue ret in
    elim (Bool-cases (leb (m + 3) w.mq.maxmsg)) [
      | inl room ↦
          let p : m + 3 ≤ w.mq.maxmsg = leb→le (m + 3) w.mq.maxmsg room in
          let ended =
            start
            ∙ ap (λ o. and_then o close)
                (send_rcv_shown show_num (add_num msg_text (msg_text ++ tail)) msg_text tail heap m
                  3 (opened w) (show_num-Showing msg_text (msg_text ++ tail)) msg_text-IsText size
                  same rest all p) in
          (
            (λ e. absurd (true_not_false (ap is_blocked (sym e ∙ ended) ∙ close_queue-ends ret _))),
            (λ q. absurd (omega arith)),
          )
      | inr full ↦ (
        (λ e. ground arith),
        (λ q.
            start
            ∙ ap (λ o. and_then (and_then o (λ u. s_rcv show_num heap)) close)
                (send_loop-blocks 3 msg_text (opened w) size
                  (omega (arith, ap (λ ms. length ms) all, length-replicate m msg_text))
                  (omega (arith, ap (λ ms. length ms) all, length-replicate m msg_text)))),
      )
    ]
