-- ===== src/Sched/HandOff.antt =====
-- posix_thread_4fifo.c as a state machine: `main` creates the threads one after another and hands each
-- its index in the variable `loop`, which they share; the mutex `s_m1` and the condition `s_c1` say
-- when it has been read, and `s_m2` keeps the threads from counting before all are there.
-- `pthread_create` is taken to succeed. A wait without a signal is a step that can be left out of a
-- run.
use linux_app_samp.Base.{ltb, ◌==◌, if◌then◌else◌, ℕ, ◌+◌, Bool, true, false, Option, none, some}
use linux_app_samp.Machine.{Reached}

-- `main`, where it holds both mutexes, in front of `pthread_create` and then of `pthread_cond_wait`;
-- where it waits and has released `s_m1`, where it is awake and has not yet taken `s_m1` again; then
-- in the loop of `pthread_join`, and ended.
pub data MainPc : Type 0 where
  f_create f_created f_wait f_woken : (loop : ℕ) → MainPc
  f_join : (loop : ℕ) → MainPc
  f_done : MainPc

-- A thread: not there, in front of reading `*arg`, of the lock of `s_m1`, of that of `s_m2`, counting,
-- ended.
pub data ThreadPc : Type 0 where
  t_none t_read : ThreadPc
  t_lock t_gate t_count t_end : (index : ℕ) → ThreadPc

pub record State : Type 0 where
  pub main : MainPc
  pub loop : ℕ  -- the variable that `arg` points to
  pub threads : ℕ → ThreadPc

pub data Move : Type 0 where
  main_step : Move
  thread_step : (thread : ℕ) → Move
  wakes : Move  -- `pthread_cond_wait` returns without a signal

abbrev pub k_num_thread : ℕ
k_num_thread = 3

abbrev pub start : State
start = record { main = f_create 0; loop = 0; threads = λ j. t_none }

abbrev pub with_thread : ℕ → ThreadPc → State → State
with_thread i t s = record s { threads = λ j. if i == j then t else s.threads j }

-- `main` does not hold `s_m1`, and it does not hold `s_m2`.
abbrev pub m1_free : MainPc → Bool
m1_free (f_create loop) = false
m1_free (f_created loop) = false
m1_free _ = true

abbrev pub m2_free : MainPc → Bool
m2_free (f_join loop) = true
m2_free f_done = true
m2_free _ = false

-- `pthread_cond_signal` wakes `main` if it waits; otherwise the signal is lost.
abbrev pub signalled : MainPc → MainPc
signalled (f_wait loop) = f_woken loop
signalled m = m

abbrev pub is_end : ThreadPc → Bool
is_end (t_end index) = true
is_end _ = false

-- The head of the loop that creates, and of the loop that joins.
abbrev pub create_at : ℕ → State → State
create_at i s =
    if ltb i k_num_thread
    then record s { main = f_create i; loop = i }
    else record s { main = f_join 0; loop = 0 }

abbrev pub join_at : ℕ → State → State
join_at i s =
    if ltb i k_num_thread
    then record s { main = f_join i; loop = i }
    else record s { main = f_done; loop = i }

abbrev pub main_next : MainPc → State → Option State
main_next (f_create i) s = some (with_thread i t_read (record s { main = f_created i }))
main_next (f_created i) s = some (record s { main = f_wait i })
main_next (f_wait i) s = none
main_next (f_woken i) s = some (create_at (i + 1) s)
main_next (f_join i) s = if is_end (s.threads i) then some (join_at (i + 1) s) else none
main_next f_done s = none

-- The thread locks `s_m1`, signals and unlocks it in one step.
abbrev pub thread_next : ℕ → ThreadPc → State → Option State
thread_next i t_none s = none
thread_next i t_read s = some (with_thread i (t_lock s.loop) s)
thread_next i (t_lock index) s =
    if m1_free s.main
    then some (with_thread i (t_gate index) (record s { main = signalled s.main }))
    else none
thread_next i (t_gate index) s =
    if m2_free s.main then some (with_thread i (t_count index) s) else none
thread_next i (t_count index) s = some (with_thread i (t_end index) s)
thread_next i (t_end index) s = none

unfoldable pub next : Move → State → Option State
next main_step s = main_next s.main s
next (thread_step i) s = thread_next i (s.threads i) s
next wakes s = some (record s { main = signalled s.main })

-- The steps without those wakings.
abbrev pub signals_only : Move → State → Option State
signals_only wakes s = none
signals_only m s = next m s

abbrev pub Running : State → Type 0
Running = Reached signals_only start
