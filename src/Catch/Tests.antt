-- ===== src/Catch/Tests.antt =====
-- The signals in concrete orders.
use mathlib.Core.Option
use linux_app_samp.Base.{◌≡◌, refl, true, false, some, List, [], ◌∷◌}
use linux_app_samp.Machine.{moves}
use linux_app_samp.Catch.Processes.{
  p_exit, c_exit, c_killed, int_catch, hup_catch, child_end, parent_end, State, Move, parent_step,
  child_step, int_arrives, hup_arrives, start, next,
}

-- The order that the pauses are for: each signal is handled before the next is sent.
abbrev gentle : List Move
gentle =
    parent_step ∷ child_step ∷ child_step ∷ parent_step ∷ int_arrives ∷ parent_step ∷ int_arrives
    ∷ parent_step ∷ int_arrives ∷ parent_step ∷ hup_arrives ∷ child_step ∷ child_step ∷ parent_step
    ∷ []

abbrev finished : State
finished = record {
  parent = p_exit;
  child = c_exit;
  int_set = true;
  hup_set = true;
  int_pending = false;
  hup_pending = false;
  fin = true;
  lines = parent_end ∷ child_end ∷ hup_catch ∷ int_catch ∷ int_catch ∷ int_catch ∷ [];
}

-- A child that is late is killed by the first signal.
late :
    Option.map (λ s. s.child) (moves next (parent_step ∷ parent_step ∷ int_arrives ∷ []) start)
    ≡ some c_killed
unfolding moves next
late = refl
