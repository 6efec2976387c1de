-- ===== src/Sysv/Tests.antt =====
-- The message programs at concrete queues.
use mathlib.Core.Option
use linux_app_samp.Base.{
  length, replicate, Bytes, overlay, codes, c_str, ◌≡◌, refl, some, List, [], ◌∷◌, ◌++◌, arith,
}
use linux_app_samp.Machine.{here, after, moves, Ends}
use linux_app_samp.Sysv.Threads.{
  Message, said, State, s_loop, Move, send_step, recv_step, message, next, start, Running,
}
use linux_app_samp.Sysv.Order.{received, sent}
use linux_app_samp.Sysv.Delivery.{AllReceived, AnyMove, queue_runs}
use linux_app_samp.Sysv.Alone.{in_msgsnd, main_alone, send_texts}

abbrev junk : Bytes
junk = replicate 256 b'#'

junk-size : length junk ≡ 256
unfolding replicate
junk-size = refl

abbrev hello : Message
hello = message 7 junk (codes "hello")

abbrev test1 : Message
test1 = message 42 junk (codes "test1")

-- The receiver takes an old message while the sender has sent one.
abbrev some_moves : List Move
some_moves = send_step ∷ send_step ∷ recv_step ∷ send_step ∷ recv_step ∷ recv_step ∷ recv_step ∷ []

some-received :
    Option.map
      (λ s. received s.lines)
      (moves (next 2 test1) some_moves (start 2 test1 (hello ∷ [])))
    ≡ some (hello ∷ [])
unfolding moves next received
some-received = refl

abbrev begun : State
begun = record (start 2 test1 (hello ∷ [])) {
  sender = s_loop 0;
  lines = said (codes "start send thread\n") ∷ [];
}

begun-Running : Running 2 test1 (hello ∷ []) begun
unfolding next
begun-Running = after (start 2 test1 (hello ∷ [])) begun send_step here refl

hello-text : c_str hello.m_data ≡ some (codes "hello")
unfolding c_str overlay replicate
hello-text = refl

two_full : main_alone 3 42 junk (hello ∷ []) ≡ in_msgsnd
unfolding main_alone send_texts
two_full = refl

queue_runs_example :
    (received begun.lines ++ begun.queue ≡ (hello ∷ []) ++ replicate (sent begun.sender) test1)
    × Ends (next 2 test1) AnyMove (AllReceived test1 (hello ∷ [])) begun
queue_runs_example = queue_runs 2 test1 (hello ∷ []) (omega arith) begun begun-Running
