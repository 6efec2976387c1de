-- ===== src/Sched/Finish.antt =====
-- The threads of posix_thread_4fifo.c come to an end.
use mathlib.Core.Path.{subst}
use linux_app_samp.Base.{
  ◌==◌, if◌then◌else◌, ℕ, zero, suc, ◌+◌, ◌-◌, ◌*◌, ◌≤◌, ◌<◌, ◌≡◌, refl, sym, ap, ◌∙◌, ◌⊎◌, inl,
  inr, none, some, arith,
}
use linux_app_samp.Machine.{Less, GoesOn, Ends, Ends-work}
use linux_app_samp.Sched.HandOff.{
  MainPc, f_create, f_created, f_wait, f_woken, f_join, f_done, ThreadPc, t_none, t_read, t_lock,
  t_gate, t_count, t_end, State, Move, main_step, thread_step, k_num_thread, with_thread, m1_free,
  m2_free, signalled, main_next, thread_next, next, signals_only, Running,
}
use linux_app_samp.Sched.Indices.{next-Sound, Running-Sound}
use linux_app_samp.Sched.Places.{Sound, Place, Variable, IsThrough}

abbrev thread_work : ThreadPc → ℕ
thread_work t_none = 6
thread_work t_read = 5
thread_work (t_lock index) = 4
thread_work (t_gate index) = 2
thread_work (t_count index) = 1
thread_work (t_end index) = 0

abbrev main_work : MainPc → ℕ
main_work (f_create i) = 30 - 5 * i
main_work (f_created i) = 29 - 5 * i
main_work (f_wait i) = 28 - 5 * i
main_work (f_woken i) = 27 - 5 * i
main_work (f_join i) = 10 - i
main_work f_done = 0

abbrev work : State → ℕ
work s =
    main_work s.main
    + thread_work (s.threads 0)
    + thread_work (s.threads 1)
    + thread_work (s.threads 2)

abbrev pub AnyMove : Move → Type 0
AnyMove m = Unit

-- `main` has joined the threads, and each has counted.
abbrev pub AllEnded : State → Type 0
AllEnded s =
    (s.main ≡ f_done) × (s.threads 0 ≡ t_end 0) × (s.threads 1 ≡ t_end 1) × (s.threads 2 ≡ t_end 2)

-- One of the three threads does more, and the others do what they did.
less_work :
    (i : ℕ) (t : ThreadPc) (threads : ℕ → ThreadPc)
    → i < k_num_thread
    → thread_work t < thread_work (threads i)
    → thread_work (if i == 0 then t else threads 0)
        + thread_work (if i == 1 then t else threads 1)
        + thread_work (if i == 2 then t else threads 2)
      < thread_work (threads 0) + thread_work (threads 1) + thread_work (threads 2)
less_work zero t threads p q = omega (arith, q)
less_work (suc zero) t threads p q = omega (arith, q)
less_work (suc (suc zero)) t threads p q = omega (arith, q)
less_work (suc (suc (suc i))) t threads p q = absurd (omega (arith, p))

module _ (s : State) (h : Sound s) where
  abbrev GoOn : Type 0
  GoOn = GoesOn signals_only AnyMove AllEnded work s

  at : (m : MainPc) → s.main ≡ m → (j : ℕ) → Place m j (s.threads j)
  at m e = subst (λ m. (j : ℕ) → Place m j (s.threads j)) e h.place

  var : (m : MainPc) → s.main ≡ m → Variable m s.loop
  var m e = subst (λ m. Variable m s.loop) e h.variable

  -- A step of a thread that leaves `main` where it is, or wakes it.
  thread_less :
      (i : ℕ) (t t' : ThreadPc) (m : MainPc)
      → s.threads i ≡ t
      → i < k_num_thread
      → thread_work t' < thread_work t
      → main_work m ≤ main_work s.main
      → thread_next i t s ≡ some (with_thread i t' (record s { main = m }))
      → GoOn
  unfolding next
  thread_less i t t' m e few less main_le made = inr (
    thread_step i,
    tt,
    subst (Less work s) (sym (ap (λ t. thread_next i t s) e ∙ made)) (
        omega
          (arith, main_le, less_work i t' s.threads few (ground (arith, less, ap thread_work e)))),
  )

  go_wait :
      (i : ℕ)
      → s.main ≡ f_wait i
      → (t : ThreadPc) → s.threads i ≡ t
      → (t ≡ t_read) ⊎ (t ≡ t_lock i)
      → GoOn
  go_wait i e t_read k p =
      thread_less i t_read (t_lock s.loop) s.main k (var (f_wait i) e).1 (omega arith) (omega arith)
        refl
  go_wait i e (t_lock index) k p =
      thread_less i (t_lock index) (t_gate index) (f_woken i) k (var (f_wait i) e).1 (omega arith)
        (ground (arith, e))
        (ap
          (λ m.
            if m1_free m
            then some (with_thread i (t_gate index) (record s { main = signalled m }))
            else none)
          e)
  go_wait i e (t_gate index) k p = absurd (ground (arith, p))
  go_wait i e (t_count index) k p = absurd (ground (arith, p))
  go_wait i e (t_end index) k p = absurd (ground (arith, p))
  go_wait i e t_none k p = absurd (ground (arith, p))

  go_join : (i : ℕ) → s.main ≡ f_join i → (t : ThreadPc) → s.threads i ≡ t → IsThrough i t → GoOn
  unfolding next
  go_join i e t_read k p = absurd (ground (arith, p))
  go_join i e (t_lock index) k p = absurd (ground (arith, p))
  go_join i e (t_gate index) k p =
      thread_less i (t_gate index) (t_count index) s.main k (var (f_join i) e) (omega arith)
        (omega arith)
        (ap (λ m. if m2_free m then some (with_thread i (t_count index) s) else none) e)
  go_join i e (t_count index) k p =
      thread_less i (t_count index) (t_end index) s.main k (var (f_join i) e) (omega arith)
        (omega arith) refl
  go_join i e (t_end index) k p = inr (main_step, tt, ground (arith, e, k, var (f_join i) e))
  go_join i e t_none k p = absurd (ground (arith, p))

  go_main : (m : MainPc) → s.main ≡ m → GoOn
  unfolding next
  go_main (f_create i) e = inr (
    main_step,
    tt,
    subst (λ m. Less work s (main_next m s)) (sym e)
        (omega (
          arith,
          ap main_work e,
          less_work i t_read s.threads (var (f_create i) e).1 (ground (arith, at (f_create i) e i)),
        )),
  )
  go_main (f_created i) e = inr (main_step, tt, ground (arith, e, var (f_created i) e))
  go_main (f_wait i) e =
      go_wait i e (s.threads i) refl (ground (arith, at (f_wait i) e i, (var (f_wait i) e)))
  go_main (f_woken i) e = inr (main_step, tt, ground (arith, e, (var (f_woken i) e)))
  go_main (f_join i) e =
      go_join i e (s.threads i) refl (ground (arith, at (f_join i) e i, (var (f_join i) e)))
  go_main f_done e = inl (e, at f_done e 0, at f_done e 1, at f_done e 2)

-- Whatever the threads have done, steps of them, with no waking but by a signal, lead to where all
-- three have counted and `main` has joined them: no signal is lost.
pub hand_off-Ends : (s : State) → Running s → Ends signals_only AnyMove AllEnded s
hand_off-Ends s r =
    Ends-work signals_only AnyMove AllEnded Sound work next-Sound (λ s h. go_main s h s.main refl) s
      (Running-Sound s r)
