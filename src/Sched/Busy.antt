-- ===== src/Sched/Busy.antt =====
-- `s_wait_without_sleep` and the two threads of posix_thread_6highLowPri.c. The clock is a parameter: what
-- the calls of `gettimeofday` give, in their order; the loop in between does nothing.
use mathlib.Core.Option
use linux_app_samp.Base.{
  leb, ◌==◌, if◌then◌else◌, Bytes, codes, ℤ, pos, negsuc, ℕ, zero, suc, ◌+◌, Option, none, some,
  List, [], ◌∷◌, ◌++◌,
}

pub record TimeVal : Type 0 where
  pub tv_sec : ℕ
  pub tv_usec : ℕ

abbrev pub Clock : Type 0
Clock = ℕ → TimeVal

-- What two steps give one after another.
abbrev pub then_do {ℓ} : {A B : Type ℓ} → Option A → (A → Option B) → Option B
then_do none k = none
then_do (some a) k = k a

module _ (clock : Clock) where
  -- The loop, on fuel for its rounds, with `n` readings made; the readings made at its end.
  unfoldable pub wait_loop : (fuel sec tv1_sec n : ℕ) → Option ℕ
  wait_loop zero sec tv1_sec n = none
  wait_loop (suc fuel) sec tv1_sec n =
      let later = wait_loop fuel sec tv1_sec (suc n) in
      if leb (tv1_sec + sec) (clock n).tv_sec then some (suc n) else later

  unfoldable pub wait_without_sleep : (fuel sec n : ℕ) → Option ℕ
  unfolding wait_loop
  wait_without_sleep fuel sec n = wait_loop fuel sec (clock n).tv_sec (suc n)

  -- The loop of a thread: the lines and the readings made.
  unfoldable pub thread_loop :
      (fuel sec : ℕ) → (line : Bytes) → (loops n : ℕ) → Option (List Bytes × ℕ)
  unfolding wait_without_sleep
  thread_loop fuel sec line zero n = some ([], n)
  thread_loop fuel sec line (suc loops) n =
      then_do (wait_without_sleep fuel sec n)
        (λ m. Option.map (λ r. (line ∷ r.0, r.1)) (thread_loop fuel sec line loops m))

  -- The result of `pthread_setschedparam`, and that of `s_setPriority` with its line.
  abbrev pub set_priority : ℕ → ℤ × Bytes
  set_priority ret =
      if ret == 1
      then (negsuc 0, codes "priority set: fail\n")
      else (pos 0, codes "priority set: OK\n")

  abbrev pub thread_func :
      (fuel sec loops : ℕ) → (line msg : Bytes) → (ret n : ℕ) → Option (List Bytes × ℕ)
  thread_func fuel sec loops line msg ret n =
      Option.map (λ r. ((set_priority ret).1 ∷ (msg ++ codes " \n") ∷ r.0, r.1))
        (thread_loop fuel sec line loops n)

  -- `thread_HighPri`
  unfoldable pub thread_high : (fuel : ℕ) → (msg : Bytes) → (ret n : ℕ) → Option (List Bytes × ℕ)
  unfolding thread_loop
  thread_high fuel msg ret n = thread_func fuel 5 3 (codes "1 > \n") msg ret n

  -- `thread_lowPri`
  unfoldable pub thread_low : (fuel : ℕ) → (msg : Bytes) → (ret n : ℕ) → Option (List Bytes × ℕ)
  unfolding thread_loop
  thread_low fuel msg ret n = thread_func fuel 1 15 (codes "2 > \n") msg ret n
