-- ===== src/Signal/Tests.antt =====
-- The two threads in a concrete order, with a wake-up that no signal caused.
use linux_app_samp.Base.{◌≡◌, refl, ◌⊎◌, false, some, [], ◌∷◌}
use linux_app_samp.Machine.{here, after, moves, Ends}
use linux_app_samp.Signal.Moves.{
  m_asleep, m_wait, Both, start, main_step, thread_step, spurious, next, Running, t_lock, t_signal,
  m_test, m_create, free, by_main,
}
use linux_app_samp.Signal.Waking.{asleep_unsignalled, ended, IsOwn, Running-Ends}

abbrev locked : Both
locked = record start { main = m_create; lock = by_main }

abbrev created : Both
created = record locked { main = m_test; thread = t_lock }

abbrev waiting : Both
waiting = record created { main = m_wait }

abbrev asleep : Both
asleep = record waiting { main = m_asleep; lock = free }

asleep-Running : Running asleep
unfolding next
asleep-Running =
    after waiting asleep main_step
      (after created waiting main_step
        (after locked created main_step (after start locked main_step here refl) refl) refl)
      refl

-- A wake-up before the signal: `main` looks at the condition again and sleeps again.
spurious_harmless :
    moves next (spurious ∷ main_step ∷ main_step ∷ main_step ∷ []) asleep ≡ some asleep
unfolding moves next
spurious_harmless = refl

all_moves :
    moves next
      (thread_step ∷ thread_step ∷ thread_step ∷ thread_step ∷ main_step ∷ main_step ∷ main_step
        ∷ main_step ∷ [])
      asleep
    ≡ some ended
unfolding moves next
all_moves = refl

asleep_unsignalled_example : (asleep.condition ≡ false) ⊎ (asleep.thread ≡ t_signal)
asleep_unsignalled_example = asleep_unsignalled asleep asleep-Running refl

Running-Ends_example : Ends next IsOwn (λ t. t ≡ ended) asleep
Running-Ends_example = Running-Ends asleep asleep-Running
