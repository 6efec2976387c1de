-- ===== src/Segment/Tests.antt =====
-- The three processes in concrete orders.
use mathlib.Core.Option
use linux_app_samp.Base.{
  replicate, get_or, codes, c_str, ℕ, zero, suc, ◌≡◌, refl, true, Option, none, some, List, [], ◌∷◌,
  ◌++◌,
}
use linux_app_samp.Machine.{moves}
use linux_app_samp.Segment.Processes.{
  Calls, sample, State, Line, shown, Move, main_step, one_step, two_step, start, next, m_fork1,
  k_size,
}

abbrev all_ok : Calls
all_ok = record {
  shmget_ok = true;
  shmat1_ok = true;
  shmdt1_ok = true;
  shmat2_ok = true;
  shmdt2_ok = true;
  shmctl_ok = true;
}

abbrev times : ℕ → Move → List Move
times zero m = []
times (suc n) m = m ∷ times n m

abbrev after_start : List Move
after_start = main_step ∷ main_step ∷ main_step ∷ one_step ∷ one_step ∷ []

abbrev third : List Line → Option Line
third (a ∷ b ∷ c ∷ ls) = some b
third _ = none

-- The second child comes after six bytes, or after all.
after_six :
    Option.map
      (λ s. third s.lines)
      (moves (next all_ok) (after_start ++ (times 6 one_step ++ (two_step ∷ two_step ∷ []))) start)
    ≡ some (some (shown (some (codes "sample"))))
unfolding moves next c_str replicate get_or
after_six = refl

after_all :
    Option.map
      (λ s. third s.lines)
      (moves (next all_ok) (after_start ++ (times 16 one_step ++ (two_step ∷ two_step ∷ []))) start)
    ≡ some (some (shown (some sample)))
unfolding moves next c_str replicate get_or
after_all = refl

abbrev begun : State
begun = record start { main = m_fork1; segment = replicate k_size 0 }
