-- ===== src/Signal/Waking.antt =====
-- Sleeping and waking in mutex_signal.c.
use linux_app_samp.Base.{ℕ, ◌+◌, ◌≡◌, refl, ◌⊎◌, inl, inr, Bool, true, false, arith}
use linux_app_samp.Machine.{IfSome, Less, Reached-invariant, GoesOn, Ends, Ends-work}
use linux_app_samp.Signal.Moves.{
  MainPc, m_lock, m_create, m_test, m_wait, m_asleep, m_woken, m_unlock, m_join, m_end, ThreadPc,
  t_none, t_lock, t_set, t_signal, t_unlock, t_end, Holder, free, by_main, by_thread, Both, Move,
  main_step, thread_step, spurious, start, next, Running,
}

-- The states that fit together: before the creation; then by where the thread is, where `main` can be,
-- with the condition and the lock.
abbrev sound_before : MainPc → Bool → Holder → Bool
sound_before m_lock false free = true
sound_before m_create false by_main = true
sound_before _ _ _ = false

-- The thread has not set the condition, and does not hold the lock.
abbrev sound_waiting : MainPc → Bool → Holder → Bool
sound_waiting m_test false by_main = true
sound_waiting m_wait false by_main = true
sound_waiting m_asleep false free = true
sound_waiting m_woken false free = true
sound_waiting _ _ _ = false

-- The thread holds the lock; `main` is in the wait.
abbrev in_wait : MainPc → Bool
in_wait m_asleep = true
in_wait m_woken = true
in_wait _ = false

abbrev sound_setting : MainPc → Bool → Holder → Bool
sound_setting m false by_thread = in_wait m
sound_setting _ _ _ = false

abbrev sound_signalling : MainPc → Bool → Holder → Bool
sound_signalling m true by_thread = in_wait m
sound_signalling _ _ _ = false

abbrev sound_signalled : MainPc → Bool → Holder → Bool
sound_signalled m_woken true by_thread = true
sound_signalled _ _ _ = false

abbrev sound_after : MainPc → Bool → Holder → Bool
sound_after m_woken true free = true
sound_after m_test true by_main = true
sound_after m_unlock true by_main = true
sound_after m_join true free = true
sound_after m_end true free = true
sound_after _ _ _ = false

abbrev fits : ThreadPc → MainPc → Bool → Holder → Bool
fits t_none = sound_before
fits t_lock = sound_waiting
fits t_set = sound_setting
fits t_signal = sound_signalling
fits t_unlock = sound_signalled
fits t_end = sound_after

unfoldable IsSound : Both → Type 0
IsSound s = fits s.thread s.main s.condition s.lock ≡ true

next-Sound : (m : Move) (s : Both) → IsSound s → IfSome IsSound (next m s)
unfolding next IsSound
next-Sound m s h = ground arith

Running-Sound : (s : Both) → Running s → IsSound s
unfolding IsSound
Running-Sound = Reached-invariant next IsSound start refl next-Sound

-- While `main` sleeps in a state that the program can come to, the thread has not yet set the
-- condition, or it has and its next step is the signal.
pub asleep_unsignalled :
    (s : Both) → Running s → s.main ≡ m_asleep → (s.condition ≡ false) ⊎ (s.thread ≡ t_signal)
unfolding IsSound
asleep_unsignalled s r e = let h = Running-Sound s r in ground (arith, h, e)

abbrev pub ended : Both
ended = record { main = m_end; thread = t_end; condition = true; lock = free }

abbrev main_work : MainPc → ℕ
main_work m_lock = 8
main_work m_create = 7
main_work m_woken = 6
main_work m_test = 5
main_work m_wait = 4
main_work m_asleep = 3
main_work m_unlock = 2
main_work m_join = 1
main_work m_end = 0

abbrev thread_work : ThreadPc → ℕ
thread_work t_none = 50
thread_work t_lock = 40
thread_work t_set = 30
thread_work t_signal = 20
thread_work t_unlock = 10
thread_work t_end = 0

abbrev work : Both → ℕ
work s = main_work s.main + thread_work s.thread

-- A step of a thread, and no wake-up without a signal.
abbrev pub IsOwn : Move → Type 0
IsOwn spurious = ⊥
IsOwn _ = Unit

go_cases :
    (s : Both)
    → IsSound s
    → (s ≡ ended) ⊎ (Less work s (next main_step s) ⊎ Less work s (next thread_step s))
unfolding next IsSound
go_cases s h = ground (arith, h)

go_on : (s : Both) → IsSound s → GoesOn next IsOwn (λ t. t ≡ ended) work s
go_on s h = elim (go_cases s h) [
  | inl over ↦ inl over
  | inr (inl less) ↦ inr (main_step, tt, less)
  | inr (inr less) ↦ inr (thread_step, tt, less)
]

-- From every state that the program can come to, steps of the two threads lead to the end: both have
-- ended, the condition is set and the lock is free. No further wake-up without a signal is needed.
pub Running-Ends : (s : Both) → Running s → Ends next IsOwn (λ t. t ≡ ended) s
Running-Ends s r =
    Ends-work next IsOwn (λ t. t ≡ ended) IsSound work next-Sound go_on s (Running-Sound s r)
