-- ===== src/Signal/Moves.antt =====
-- The two threads as a state machine: each move is a call on the lock or the condition, or an access to
-- `condition`. What a thread prints between goes with the move before.
use linux_app_samp.Machine.{Reached}
use linux_app_samp.Base.{Bool, true, false, Option, none, some}

-- Where `main` is: in front of a call or of the test of `condition` (`m_test`), in `pthread_cond_wait`
-- without a signal (`m_asleep`), or in it with one and in need of the lock (`m_woken`).
pub data MainPc : Type 0 where
  m_lock m_create m_test m_wait m_asleep m_woken m_unlock m_join m_end : MainPc

-- Where `threadproc` is; `t_none` before it is created.
pub data ThreadPc : Type 0 where
  t_none t_lock t_set t_signal t_unlock t_end : ThreadPc

pub data Holder : Type 0 where
  free by_main by_thread : Holder

pub record Both : Type 0 where
  pub main : MainPc
  pub thread : ThreadPc
  pub condition : Bool
  pub lock : Holder

abbrev pub start : Both
start = record { main = m_lock; thread = t_none; condition = false; lock = free }

-- A thread takes its next step, or the wait of `main` ends without a signal.
pub data Move : Type 0 where
  main_step thread_step spurious : Move

-- `pthread_mutex_lock`, and the end of a wait: blocked while the lock is held.
abbrev pub take_lock : Holder → Holder → Both → Option Both
take_lock who free s = some (record s { lock = who })
take_lock who by_main s = none
take_lock who by_thread s = none

-- `pthread_cond_signal` wakes `main` if it waits; otherwise it is lost.
abbrev pub signalled : MainPc → MainPc
signalled m_asleep = m_woken
signalled m = m

-- `while(!condition)`: the call of `pthread_cond_wait` is a step of its own.
abbrev pub test_condition : Bool → Both → Both
test_condition true s = record s { main = m_unlock }
test_condition false s = record s { main = m_wait }

abbrev pub joined : ThreadPc → Both → Option Both
joined t_end s = some (record s { main = m_end })
joined _ s = none

abbrev pub main_next : MainPc → Both → Option Both
main_next m_lock s = take_lock by_main s.lock (record s { main = m_create })
main_next m_create s = some (record s { main = m_test; thread = t_lock })
main_next m_test s = some (test_condition s.condition s)
-- `pthread_cond_wait` lets the lock go and sleeps.
main_next m_wait s = some (record s { main = m_asleep; lock = free })
main_next m_asleep s = none
main_next m_woken s = take_lock by_main s.lock (record s { main = m_test })
main_next m_unlock s = some (record s { main = m_join; lock = free })
main_next m_join s = joined s.thread s
main_next m_end s = none

abbrev pub thread_next : ThreadPc → Both → Option Both
thread_next t_none s = none
thread_next t_lock s = take_lock by_thread s.lock (record s { thread = t_set })
thread_next t_set s = some (record s { thread = t_signal; condition = true })
thread_next t_signal s = some (record s { thread = t_unlock; main = signalled s.main })
thread_next t_unlock s = some (record s { thread = t_end; lock = free })
thread_next t_end s = none

abbrev pub wake_up : MainPc → Both → Option Both
wake_up m_asleep s = some (record s { main = m_woken })
wake_up _ s = none

unfoldable pub next : Move → Both → Option Both
next main_step s = main_next s.main s
next thread_step s = thread_next s.thread s
next spurious s = wake_up s.main s

-- What the program can come to.
abbrev pub Running : Both → Type 0
Running = Reached next start
