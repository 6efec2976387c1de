-- ===== src/Queue/Tests.antt =====
-- The message queue programs at concrete inputs.
use linux_app_samp.Base.{
  length, take, drop, replicate, Bytes, overlay, codes, c_str, IsText, dec, ℤ, pos, ℕ, ◌<◌, ◌≡◌,
  refl, ◌↔◌, true, some, List, [], ◌∷◌, ◌++◌, arith,
}
use linux_app_samp.Queue.Mq.{
  World, Outcome, done, blocked, overrun, ◌>>◌, mq_send, mq_receive, show_attr,
}
use linux_app_samp.Queue.Programs.{
  msg_text, send_loop, show_numbered, show_num, rcv_loop, s_rcv, main_send_rcv, main_msg_size,
  main_20msgs,
}
use linux_app_samp.Queue.Transfer.{with_msgs}
use linux_app_samp.Queue.Shown.{numbered_lines, sized_lines, lines_before}
use linux_app_samp.Queue.Rounds.{send_rcv, main_send_rcv_iff}

-- A queue of ten messages of 20 bytes, with `m` messages in it.
abbrev held : ℕ → World
held m = record {
  mq = record { maxmsg = 10; msgsize = 20; msgs = replicate m msg_text };
  lines = [];
}

-- A buffer that is not zeroed.
abbrev heap : Bytes
heap = replicate 12 0 ++ (codes "??" ++ replicate 6 0)

last_lines : Outcome ℤ → List Bytes
last_lines (done a w) = take 2 w.lines
last_lines blocked = codes "blocked" ∷ []
last_lines overrun = codes "overrun" ∷ []

shows_rest :
    last_lines (main_send_rcv (pos 3) (pos 0) heap (held 0))
    ≡ codes "close ok\n" ∷ codes "  rcvd > Hellow World??\n" ∷ []
unfolding main_send_rcv send_loop mq_send s_rcv show_attr rcv_loop mq_receive last_lines take
    replicate overlay c_str dec
shows_rest = refl

lines_20 :
    last_lines (main_20msgs true (pos 3) (pos 0) (replicate 256 0) (held 9))
    ≡ codes "close ok\n" ∷ codes "19:  rcvd > Hellow World\n" ∷ []
unfolding main_20msgs send_loop mq_send s_rcv show_attr rcv_loop mq_receive last_lines take
    replicate overlay c_str dec
lines_20 = refl

lines_size :
    last_lines (main_msg_size (pos 3) (pos 0) (held 9))
    ≡ codes "close ok\n" ∷ codes "curmsgs = 0\n" ∷ []
unfolding main_msg_size show_attr last_lines take dec replicate
lines_size = refl

msg_text_ok : IsText msg_text
msg_text_ok = omega arith

heap_size : length heap ≡ 20
unfolding replicate
heap_size = refl

heap_rest : c_str (drop 12 heap) ≡ some (codes "??")
unfolding c_str drop replicate
heap_rest = refl

send_rcv_example :
    let text = msg_text ++ codes "??" in
    ((send_loop 2 msg_text >> s_rcv show_numbered heap) (held 1)
      ≡ done tt
          (with_msgs [] (numbered_lines text 3 0 (lines_before msg_text 1 2 (held 1))) (held 1)))
    × ((send_loop 2 msg_text >> s_rcv show_num heap) (held 1)
        ≡ done tt
            (with_msgs [] (sized_lines 12 text 3 (lines_before msg_text 1 2 (held 1))) (held 1)))
send_rcv_example =
    send_rcv msg_text (codes "??") heap 1 2 (held 1) msg_text_ok (omega arith) heap_size heap_rest
      refl (omega arith)

main_send_rcv_iff_example : (main_send_rcv (pos 3) (pos 0) heap (held 8) ≡ blocked) ↔ (10 < 11)
main_send_rcv_iff_example =
    main_send_rcv_iff (pos 3) (pos 0) (codes "??") heap 8 (held 8) refl (omega arith) heap_size
      heap_rest refl (omega arith)
