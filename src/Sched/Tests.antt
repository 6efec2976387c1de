-- ===== src/Sched/Tests.antt =====
-- The threads in concrete orders, and a clock of which each reading is a second later.
use mathlib.Core.Option
use linux_app_samp.Base.{Bytes, codes, ℕ, zero, suc, ◌≡◌, refl, some, List, [], ◌∷◌}
use linux_app_samp.Machine.{moves}
use linux_app_samp.Sched.HandOff.{
  f_wait, ThreadPc, t_none, t_read, t_gate, t_lock, State, Move, main_step, thread_step, wakes,
  start, with_thread, next,
}
use linux_app_samp.Sched.Busy.{Clock, wait_without_sleep, wait_loop}

-- The second thread has its index, the first waits for the others.
abbrev handed : List Move
handed =
    main_step
    ∷ main_step
    ∷ thread_step 0
    ∷ thread_step 0
    ∷ main_step
    ∷ main_step
    ∷ main_step
    ∷ thread_step 1
    ∷ []

abbrev after_two : State
after_two = with_thread 1 (t_lock 1) (
    with_thread 1 t_read (
      with_thread 0 (t_gate 0) (
        with_thread 0 (t_lock 0)
          (with_thread 0 t_read (record { main = f_wait 1; loop = 1; threads = λ j. t_none })))))

abbrev index : ℕ
index = 1

-- After a waking without a signal both threads read 1.
two_with_one_index :
    Option.map {B = ThreadPc × ThreadPc}
      (λ s. (s.threads 0, s.threads 1))
      (moves next
        (main_step ∷ main_step ∷ wakes ∷ main_step ∷ main_step ∷ thread_step 0 ∷ thread_step 1 ∷ [])
        start)
    ≡ some (t_lock 1, t_lock 1)
unfolding moves next
two_with_one_index = refl

abbrev seconds : Clock
seconds n = record { tv_sec = n; tv_usec = 0 }

abbrev one_line : Bytes
one_line = codes "1 > \n"

-- A wait for a second that takes a millionth of one.
abbrev at_the_edge : Clock
at_the_edge zero = record { tv_sec = 0; tv_usec = 999999 }
at_the_edge (suc n) = record { tv_sec = 1; tv_usec = n }

short_wait : wait_without_sleep at_the_edge 1 1 0 ≡ some 2
unfolding wait_without_sleep wait_loop
short_wait = refl
