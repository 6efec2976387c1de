-- ===== src/Catch/Handlers.antt =====
-- What the handlers write, and when the child can end.
use linux_app_samp.Base.{◌≤◌, ◌≡◌, refl, ◌≢◌, ◌⊎◌, false, arith}
use linux_app_samp.Machine.{IfSome, Reached-invariant}
use linux_app_samp.Catch.Processes.{
  c_killed, int_catch, hup_catch, child_end, parent_end, State, Move, parent_step, child_step,
  int_arrives, hup_arrives, start, lives, next, Running,
}
use linux_app_samp.Catch.Invariant.{tally, Sound, ends_le}
use linux_app_samp.Catch.Steps.{keep_parent, keep_child, kill_early, keep_int, keep_hup}

pub next-Sound : (m : Move) (s : State) → Sound s → IfSome Sound (next m s)
unfolding next
next-Sound parent_step s h = keep_parent s h s.parent refl
next-Sound child_step s h = keep_child s h s.child refl
next-Sound int_arrives s h = keep_int s h s.int_pending (lives s.child) s.int_set refl refl refl
next-Sound hup_arrives s h = keep_hup s h s.hup_pending (lives s.child) s.hup_set refl refl refl

pub Running-Sound : (s : State) → Running s → Sound s
Running-Sound =
    Reached-invariant next Sound start
      (record {
        ints = omega arith;
        hups = omega arith;
        fins = omega arith;
        ended = refl;
        parent_ended = refl;
        is_set = (refl, refl);
        begun = refl;
      })
      next-Sound

-- In every order of the steps and the deliveries: SIGINT is caught at most three times and SIGHUP once;
-- each process prints its last line at most once, the child only if SIGHUP has been caught; and the
-- child is not killed once both handlers are set.
pub at_most :
    (s : State)
    → Running s
    → (tally int_catch s.lines ≤ 3)
      × (tally hup_catch s.lines ≤ 1)
      × (tally child_end s.lines ≤ tally hup_catch s.lines)
      × (tally parent_end s.lines ≤ 1)
      × ((s.child ≢ c_killed) ⊎ (s.hup_set ≡ false))
at_most s r =
    let h = Running-Sound s r in
    (
      omega (arith, h.ints),
      omega (arith, h.hups),
      ends_le s.child _ _ h.ended,
      omega (arith, h.parent_ended),
      kill_early s h s.child refl,
    )
