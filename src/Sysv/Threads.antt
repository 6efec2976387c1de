-- ===== src/Sysv/Threads.antt =====
-- msg_1thread_send_rcv.c: `send_func` and `recv_func` as a state machine. Parameters: what the queue
-- holds at the start, the number of messages it takes, the process id and the junk in the sender's
-- `m_data`.
use linux_app_samp.Base.{
  ltb, if◌then◌else◌, length, Bytes, overlay, codes, ℕ, ◌+◌, Option, none, some, List, [], ◌∷◌,
  ◌++◌,
}
use linux_app_samp.Machine.{Reached}

pub record Message : Type 0 where
  pub m_type : ℕ
  pub m_data : Bytes

-- A line printed; of a message, its type and `m_data`, which `%s` shows up to the first zero.
pub data Line : Type 0 where
  said : (text : Bytes) → Line
  recv : (m : Message) → Line

-- `loop` rounds are done; `s_send` is in front of `msgsnd`.
pub data SendPc : Type 0 where
  s_start s_stop : SendPc
  s_loop s_send : (loop : ℕ) → SendPc
  s_end : SendPc

-- In front of `msgctl`, or of `msgrcv` with a message seen.
pub data RecvPc : Type 0 where
  r_start r_look r_take : RecvPc

pub record State : Type 0 where
  pub sender : SendPc
  pub receiver : RecvPc
  pub queue : List Message  -- the oldest first
  pub lines : List Line  -- the newest first

pub data Move : Type 0 where
  send_step recv_step : Move

abbrev pub rounds : ℕ
rounds = 5

-- `strcpy(p->m_data, text)`, and the message that is sent: all of `m_data`.
abbrev pub message : ℕ → Bytes → Bytes → Message
message pid junk text = record { m_type = pid; m_data = overlay (text ++ 0 ∷ []) junk }

abbrev pub say : Bytes → State → State
say text s = record s { lines = said text ∷ s.lines }

abbrev pub next_loop : ℕ → SendPc
next_loop loop = if ltb (loop + 1) rounds then s_loop (loop + 1) else s_stop

-- `msgsnd` waits while the queue is full.
abbrev pub msgsnd : (cap : ℕ) → Message → State → Option State
msgsnd cap m s =
    if ltb (length s.queue) cap then some (record s { queue = s.queue ++ m ∷ [] }) else none

-- `msgrcv` takes the oldest message, whatever its type.
abbrev pub msgrcv : List Message → State → Option State
msgrcv [] s = none
msgrcv (m ∷ ms) s = some (record s { queue = ms; lines = recv m ∷ s.lines; receiver = r_look })

-- What `msgctl` says of `msg_qnum`; without a message the thread sleeps and looks again.
abbrev pub look : List Message → State → Option State
look [] s = some s
look (m ∷ ms) s = some (record s { receiver = r_take })

module _ (cap : ℕ) (test1 : Message) where
  abbrev pub send_next : SendPc → State → Option State
  send_next s_start s = some (say (codes "start send thread\n") (record s { sender = s_loop 0 }))
  send_next (s_loop loop) s =
      some (say (codes "  send message\n") (record s { sender = s_send loop }))
  send_next (s_send loop) s = msgsnd cap test1 (record s { sender = next_loop loop })
  send_next s_stop s = some (say (codes "end send thread\n") (record s { sender = s_end }))
  send_next s_end s = none

  abbrev pub recv_next : RecvPc → State → Option State
  recv_next r_start s = some (say (codes "start recv thread\n") (record s { receiver = r_look }))
  recv_next r_look s = look s.queue s
  recv_next r_take s = msgrcv s.queue s

  unfoldable pub next : Move → State → Option State
  next send_step s = send_next s.sender s
  next recv_step s = recv_next s.receiver s

  abbrev pub start : List Message → State
  start old = record { sender = s_start; receiver = r_start; queue = old; lines = [] }

  abbrev pub Running : List Message → State → Type 0
  Running old = Reached next (start old)
