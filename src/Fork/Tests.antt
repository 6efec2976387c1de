-- ===== src/Fork/Tests.antt =====
-- The three processes in concrete orders.
use linux_app_samp.Base.{length, ◌≤◌, ◌≡◌, refl, ◌≢◌, ◌⊎◌, true, some, List, [], ◌∷◌}
use linux_app_samp.Machine.{moves, Ends}
use linux_app_samp.Fork.Processes.{
  m_exit, over, child_1, child_2, main_line, State, Move, main_step, one_step, two_step, start,
  next,
}
use linux_app_samp.Fork.Lines.{Complete}
use linux_app_samp.Fork.Ending.{AnyMove, AllOver, fork_runs}

-- The children take turns; `main` is last.
abbrev turns : List Move
turns =
    main_step ∷ main_step ∷ two_step ∷ one_step ∷ two_step ∷ one_step ∷ two_step ∷ one_step
    ∷ two_step ∷ main_step ∷ one_step ∷ main_step ∷ main_step ∷ []

abbrev finished : State
finished = record {
  main = m_exit;
  one = over;
  two = over;
  reaped = 2;
  lines = main_line ∷ child_1 ∷ child_2 ∷ child_1 ∷ child_2 ∷ child_1 ∷ child_2 ∷ [];
}

turns-finished : moves (next true true) turns start ≡ some finished
unfolding moves next
turns-finished = refl

fork_runs_example :
    (length turns ≤ 20)
    × ((finished.main ≢ m_exit) ⊎ Complete true true finished.lines)
    × Ends (next true true) AnyMove AllOver finished
fork_runs_example = fork_runs true true turns finished turns-finished
