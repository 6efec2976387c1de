-- ===== src/Queue/Programs.antt =====
-- The three programs. Parameters: what the buffer of `malloc` holds (`heap`), whether the file of the
-- limit can be opened, the results of `mq_open` and `mq_close`, and the queue that `mq_open` finds.
use linux_app_samp.Base.{
  if◌then◌else◌, length, Bytes, codes, dec, int_text, ℤ, pos, ℕ, zero, suc, Bool, not, [], ◌∷◌,
  ◌++◌,
}
use linux_app_samp.Base.Int.{is_neg}
use linux_app_samp.Os.Files.{int_eq}
use linux_app_samp.Queue.Mq.{
  World, Act, pure, ◌>>=◌, ◌>>◌, say, say_str, mq_send, mq_receive, show_attr,
}

abbrev pub msg_text : Bytes
msg_text = codes "Hellow World"

abbrev pub k_num_messages : ℕ
k_num_messages = 20

-- "  sent > %s\n"
abbrev pub sent_line : Bytes → Bytes
sent_line msg = codes "  sent > " ++ (msg ++ 10 ∷ [])

-- `s_send`: `strlen(ptr)` leaves the zero out of the message. The number of messages is 20 in one
-- program and 3 in the other.
unfoldable pub send_loop : ℕ → Bytes → Act (Unit {0})
send_loop zero msg = pure tt
send_loop (suc n) msg = do say (sent_line msg); mq_send msg; send_loop n msg

-- How `s_rcv` shows a message: its number, the length received and the buffer.
abbrev pub Shows : Type 0
Shows = ℕ → ℕ → Bytes → Act (Unit {0})

-- "%d:  rcvd > %s\n"
abbrev pub show_numbered : Shows
show_numbered loop num buf = say_str (dec loop ++ codes ":  rcvd > ") buf

-- "  num = %d\n", "  rcvd > %s\n"
abbrev pub show_num : Shows
show_num loop num buf = do
  say (codes "  num = " ++ (dec num ++ 10 ∷ []))
  say_str (codes "  rcvd > ") buf

-- The loop of `s_rcv`; the messages to come, the number of this one, the buffer.
unfoldable pub rcv_loop : Shows → ℕ → ℕ → Bytes → Act (Unit {0})
rcv_loop show zero loop buf = pure tt
rcv_loop show (suc n) loop buf = do
  (num, buf') ← mq_receive buf
  show loop num buf'
  rcv_loop show n (suc loop) buf'

-- `s_rcv`: the number of messages is read once, before the loop.
unfoldable pub s_rcv : Shows → Bytes → Act (Unit {0})
unfolding show_attr rcv_loop
s_rcv show heap = show_attr >>= λ _ w. rcv_loop show (length w.mq.msgs) 0 heap w

-- The end of each `main`: `mq_close`, and the exit status.
abbrev pub close_queue : ℤ → Act ℤ
close_queue ret =
    if int_eq ret (pos 0)
    then (say (codes "close ok\n") >> pure (pos 0))
    else (say (codes "open failed\n") >> pure (pos 1))

-- The rest of `main` when `mq_open` has succeeded.
abbrev pub opened_queue : Act (Unit {0}) → ℤ → Act ℤ
opened_queue body ret = say (codes "open ok\n") >> (body >> close_queue ret)

abbrev pub fresh : ℕ → ℕ → World → World
fresh maxmsg msgsize w = record w { mq = record { maxmsg = maxmsg; msgsize = msgsize; msgs = [] } }

-- mqueue_1send_rcv.c, on the queue that is there
unfoldable pub main_send_rcv : (mqd ret : ℤ) → Bytes → Act ℤ
unfolding send_loop s_rcv
main_send_rcv mqd ret heap =
    if is_neg mqd
    then (say (codes "open failed\n") >> pure (pos 1))
    else opened_queue (send_loop 3 msg_text >> s_rcv show_num heap) ret

-- mqueue_2setMsgSize.c; `mq_unlink` comes first, so that `mq_open` makes a queue with these
-- attributes. If it fails there is none; that of the result, which nobody reads, is as it was.
unfoldable pub main_msg_size : (mqd ret : ℤ) → Act ℤ
unfolding show_attr
main_msg_size mqd ret w =
    if is_neg mqd
    then (say (codes "open failed " ++ (int_text mqd ++ 10 ∷ [])) >> pure (pos 1)) w
    else opened_queue show_attr ret (fresh 8 1024 w)

-- mqueue_3send_rcv_20msgs.c; `setMaxMessages` writes the limit of the system, which `mq_open` obeys.
-- The world is that of the new queue only where `mq_open` has made it.
unfoldable pub main_20msgs : Bool → (mqd ret : ℤ) → Bytes → Act ℤ
unfolding show_attr send_loop s_rcv
main_20msgs limit_opens mqd ret heap w =
    if not limit_opens
    then (say (codes "setMaxMessages : failed\n") >> pure (pos 0)) w
    else if is_neg mqd
    then (say (codes "open failed " ++ (int_text mqd ++ 10 ∷ [])) >> pure (pos 1)) w
    else opened_queue (show_attr >> (send_loop k_num_messages msg_text >> s_rcv show_numbered heap))
        ret (fresh 60 256 w)
