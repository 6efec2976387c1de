-- ===== src/Argument/Tests.antt =====
-- The threads with a `malloc` that takes the block at the top.
use mathlib.Core.Option
use linux_app_samp.Base.{
  ltb, if◌then◌else◌, length, ℕ, zero, suc, ◌≤◌, ◌≡◌, refl, ◌≢◌, ◌⊎◌, false, none, some, List, [],
  ◌∷◌, ◌++◌, arith,
}
use linux_app_samp.Machine.{moves, Ends}
use linux_app_samp.Argument.Threads.{
  Heap, a_done, State, Move, main_step, thread_step, k_num, create, start, next,
}
use linux_app_samp.Argument.Places.{tally}
use linux_app_samp.Argument.Blocks.{IsFresh}
use linux_app_samp.Argument.Finish.{AnyMove, Returned, argument_runs}

abbrev at_top : Heap → ℕ → ℕ
at_top heap top = top

at_top-IsFresh : IsFresh at_top
at_top-IsFresh heap top above = above top (omega arith)

-- The first two threads are there.
abbrev two_there : State
two_there = create 1 1 (create 0 0 start)

abbrev two_steps : List Move
two_steps = main_step ∷ main_step ∷ []

two_steps-made : moves (next at_top) two_steps start ≡ some two_there
unfolding moves next
two_steps-made = refl

argument_runs_example :
    (length two_steps ≤ 90)
    × ((two_there.broken ≡ false)
        × (tally 1 two_there.lines ≤ (if ltb 1 k_num then 1 else 0))
        × ((two_there.main ≢ a_done)
            ⊎ ((tally 1 two_there.lines ≡ (if ltb 1 k_num then 1 else 0))
                × (two_there.heap 0 ≡ none))))
    × Ends (next at_top) AnyMove Returned two_there
argument_runs_example = argument_runs at_top two_steps two_there 1 0 at_top-IsFresh two_steps-made

-- Each thread runs as soon as it is there, then they are joined.
abbrev rounds : ℕ → ℕ → List Move
rounds zero i = []
rounds (suc n) i = main_step ∷ thread_step i ∷ thread_step i ∷ thread_step i ∷ rounds n (suc i)

abbrev joins : ℕ → List Move
joins zero = []
joins (suc n) = main_step ∷ joins n

in_order :
    Option.map (λ s. s.lines) (moves (next at_top) (rounds 10 0 ++ joins 10) start)
    ≡ some (9 ∷ 8 ∷ 7 ∷ 6 ∷ 5 ∷ 4 ∷ 3 ∷ 2 ∷ 1 ∷ 0 ∷ [])
unfolding moves next
in_order = refl
