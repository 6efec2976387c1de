-- ===== src/Sched/Rounds.antt =====
-- How long the waits and the rounds of posix_thread_6highLowPri.c take.
use mathlib.Core.Option
use mathlib.Core.Path.{subst}
use linux_app_samp.Base.{
  leb, Bool-cases, ℕ, zero, suc, ◌+◌, ◌*◌, ◌≤◌, ◌<◌, ◌≡◌, ap, ◌∙◌, inl, inr, true, some, arith,
}
use linux_app_samp.Sched.Busy.{TimeVal, Clock, wait_loop, wait_without_sleep}

-- The clock does not go back, and in time it comes to every second.
pub record IsClock (clock : Clock) : Type 0 where
  pub usec_small : (n : ℕ) → (clock n).tv_usec < 1000000
  pub rises : (n : ℕ) → (clock n).tv_sec ≤ (clock (suc n)).tv_sec

-- The clock shows second `sec` within `fuel` readings from `n` on.
abbrev pub Reaches : Clock → (sec n fuel : ℕ) → Type 0
Reaches clock sec n fuel = (k : ℕ) × (k < fuel) × (sec ≤ (clock (n + k)).tv_sec)

abbrev pub usec_of : TimeVal → ℕ
usec_of t = t.tv_sec * 1000000 + t.tv_usec

module _ (clock : Clock) where
  reading : {x : ℕ} {m n : ℕ} → x ≤ (clock m).tv_sec → m ≡ n → x ≤ (clock n).tv_sec
  reading {x} p e = subst (λ n. x ≤ (clock n).tv_sec) e p

  at_once :
      (fuel sec tv1_sec n : ℕ)
      → tv1_sec + sec ≤ (clock n).tv_sec
      → (j : ℕ) × (wait_loop clock (suc fuel) sec tv1_sec n ≡ some (n + suc j))
        × (tv1_sec + sec ≤ (clock (n + j)).tv_sec)
  unfolding wait_loop
  at_once fuel sec tv1_sec n p =
      let late : leb (tv1_sec + sec) (clock n).tv_sec ≡ true = ground (arith, p) in
      (0, rw late (ap some (omega arith)), reading p (omega arith))

  -- The loop ends with the first reading that is late enough.
  loop_ends :
      (fuel sec tv1_sec n k : ℕ)
      → k < fuel
      → tv1_sec + sec ≤ (clock (n + k)).tv_sec
      → (j : ℕ) × (wait_loop clock fuel sec tv1_sec n ≡ some (n + suc j))
        × (tv1_sec + sec ≤ (clock (n + j)).tv_sec)
  unfolding wait_loop
  loop_ends zero sec tv1_sec n k p q = absurd (omega arith)
  loop_ends (suc fuel) sec tv1_sec n zero p q = at_once fuel sec tv1_sec n (reading q (omega arith))
  loop_ends (suc fuel) sec tv1_sec n (suc k) p q =
      elim (Bool-cases (leb (tv1_sec + sec) (clock n).tv_sec)) [
        | inl late ↦ at_once fuel sec tv1_sec n (ground (arith, late))
        | inr early ↦
            let (j, run, there) =
              loop_ends fuel sec tv1_sec (suc n) k (omega arith) (reading q (omega arith)) in
            (suc j, rw early (run ∙ ap some (omega arith)), reading there (omega arith))
      ]

  -- A wait that begins with reading `n` ends, if the clock goes on, with a reading that is `sec` seconds later
  -- in whole seconds, and so may be nearly one second too short.
  pub wait_time :
      (fuel sec n : ℕ)
      → IsClock clock
      → Reaches clock ((clock n).tv_sec + sec) (suc n) fuel
      → (j : ℕ) × (wait_without_sleep clock fuel sec n ≡ some (suc n + suc j))
        × ((clock n).tv_sec + sec ≤ (clock (suc n + j)).tv_sec)
        × (usec_of (clock n) + sec * 1000000 < usec_of (clock (suc n + j)) + 1000000)
  unfolding wait_without_sleep
  wait_time fuel sec n h (k, few, late) =
      let (j, run, there) = loop_ends fuel sec (clock n).tv_sec (suc n) k few late in
      (j, run, there, omega (arith, there, h.usec_small n))

  -- Enough rounds for every wait that a thread begins.
  abbrev pub Enough : (sec fuel : ℕ) → Type 0
  Enough sec fuel = (n : ℕ) → Reaches clock ((clock n).tv_sec + sec) (suc n) fuel
