-- ===== src/Counter/Mutex.antt =====
-- mutex_variable.c: `thread_func1` increments the value ten times under the mutex, `thread_func2` shows it
-- ten times under the mutex and twenty times without.
use linux_app_samp.Base.{
  ltb, if◌then◌else◌, ltb→lt, Bool-cases, Bytes, codes, dec, ℕ, ◌+◌, ◌-◌, ◌*◌, ◌<◌, ◌≡◌, refl, inl,
  inr, none, some, List, [], ◌∷◌, ◌++◌, arith,
}
use linux_app_samp.Counter.Threads.{
  Shared, Stepped, Task, IsTask, StepLaw, total, wait, post, store, say,
}
use linux_app_samp.Counter.Exclusion.{Guarded}

-- Where a thread is, with its `loop`; `inc_set` has what `get_val` gave.
pub data Pc : Type 0 where
  inc_lock inc_get : (loop : ℕ) → Pc
  inc_set : (loop loaded : ℕ) → Pc
  inc_unlock : (loop : ℕ) → Pc
  show_lock show_print show_unlock : (loop : ℕ) → Pc
  show_free : (loop : ℕ) → Pc
  at_end : Pc

abbrev pub rounds : ℕ
rounds = 10

abbrev pub free_rounds : ℕ
free_rounds = 20

-- "thread 2: %d\n"
unfoldable pub val_line : ℕ → Bytes
val_line val = codes "thread 2: " ++ (dec val ++ 10 ∷ [])

abbrev pub next_inc : ℕ → Pc
next_inc loop = if ltb (loop + 1) rounds then inc_lock (loop + 1) else at_end

abbrev pub next_show : ℕ → Pc
next_show loop = if ltb (loop + 1) rounds then show_lock (loop + 1) else show_free 0

abbrev pub next_free : ℕ → Pc
next_free loop = if ltb (loop + 1) free_rounds then show_free (loop + 1) else at_end

unfoldable pub step : ℕ → Pc → Shared → Stepped Pc
unfolding val_line
step thr (inc_lock loop) s = wait (inc_get loop) s
step thr (inc_get loop) s = some (inc_set loop s.cnt, s)
step thr (inc_set loop loaded) s = store (loaded + 1) (inc_unlock loop) s
step thr (inc_unlock loop) s = post (next_inc loop) s
step thr (show_lock loop) s = wait (show_print loop) s
step thr (show_print loop) s = say (val_line s.cnt) (show_unlock loop) s
step thr (show_unlock loop) s = post (next_show loop) s
step thr (show_free loop) s = say (val_line s.cnt) (next_free loop) s
step thr at_end s = none

-- The threads that `main` creates, and the mutex that nobody holds.
abbrev pub boot : List Pc × Shared
boot = (inc_lock 0 ∷ show_lock 0 ∷ [], record { cnt = 0; sem = 1; lines = [] })

-- What the joins of `main` wait for.
abbrev pub AllEnded : List Pc → Type 0
AllEnded [] = Unit
AllEnded (at_end ∷ pcs) = AllEnded pcs
AllEnded (_ ∷ pcs) = ⊥

abbrev inside : Pc → ℕ
inside (inc_get loop) = 1
inside (inc_set loop loaded) = 1
inside (inc_unlock loop) = 1
inside (show_print loop) = 1
inside (show_unlock loop) = 1
inside _ = 0

abbrev left : Pc → ℕ
left (inc_lock loop) = rounds - loop
left (inc_get loop) = rounds - loop
left (inc_set loop loaded) = rounds - loop
left (inc_unlock loop) = rounds - loop - 1
left _ = 0

abbrev work : Pc → ℕ
work (inc_lock loop) = 4 * (rounds - loop - 1) + 4
work (inc_get loop) = 4 * (rounds - loop - 1) + 3
work (inc_set loop loaded) = 4 * (rounds - loop - 1) + 2
work (inc_unlock loop) = 4 * (rounds - loop - 1) + 1
work (show_lock loop) = 3 * (rounds - loop - 1) + 3 + free_rounds
work (show_print loop) = 3 * (rounds - loop - 1) + 2 + free_rounds
work (show_unlock loop) = 3 * (rounds - loop - 1) + 1 + free_rounds
work (show_free loop) = free_rounds - loop - 1 + 1
work at_end = 0

abbrev Holds : Pc → ℕ → Type 0
Holds (inc_lock loop) cnt = loop < rounds
Holds (inc_get loop) cnt = loop < rounds
Holds (inc_set loop loaded) cnt = (loop < rounds) × (loaded ≡ cnt)
Holds (inc_unlock loop) cnt = loop < rounds
Holds (show_lock loop) cnt = loop < rounds
Holds (show_print loop) cnt = loop < rounds
Holds (show_unlock loop) cnt = loop < rounds
Holds (show_free loop) cnt = loop < free_rounds
Holds at_end cnt = Unit

abbrev pub task : Task Pc
task = record { step = step; inside = inside; left = left; work = work; Holds = Holds }

step_law : (thr : ℕ) (pc : Pc) (s : Shared) → StepLaw task pc s (step thr pc s)
unfolding step
step_law thr (inc_lock loop) s = elim (Bool-cases (ltb 0 s.sem)) [
  | inl free ↦
      rw free (λ h. (omega (arith, ltb→lt 0 s.sem free), refl, h, (λ e. refl), omega arith))
  | inr shut ↦ rw shut (inr (refl, ground arith))
]
step_law thr (inc_get loop) s = λ h. (refl, refl, (h, refl), (λ e. refl), omega arith)
step_law thr (inc_set loop loaded) s =
    λ h. (refl, omega (arith, h.0, h.1), h.0, (λ e. absurd (omega arith)), omega arith)
step_law thr (inc_unlock loop) s = elim (Bool-cases (ltb (loop + 1) rounds)) [
  | inl again ↦
      let p : loop + 1 < rounds = ltb→lt (loop + 1) rounds again in
      rw again (λ h. (omega arith, omega arith, p, (λ e. refl), omega arith))
  | inr over ↦ rw over (λ h. (omega arith, ground arith, tt, (λ e. refl), omega arith))
]
step_law thr (show_lock loop) s = elim (Bool-cases (ltb 0 s.sem)) [
  | inl free ↦
      rw free (λ h. (omega (arith, ltb→lt 0 s.sem free), refl, h, (λ e. refl), omega arith))
  | inr shut ↦ rw shut (inr (refl, ground arith))
]
step_law thr (show_print loop) s = λ h. (refl, refl, h, (λ e. refl), omega arith)
step_law thr (show_unlock loop) s = elim (Bool-cases (ltb (loop + 1) rounds)) [
  | inl again ↦
      let p : loop + 1 < rounds = ltb→lt (loop + 1) rounds again in
      rw again (λ h. (omega arith, refl, p, (λ e. refl), omega arith))
  | inr over ↦ rw over (λ h. (omega arith, refl, omega arith, (λ e. refl), omega arith))
]
step_law thr (show_free loop) s = elim (Bool-cases (ltb (loop + 1) free_rounds)) [
  | inl again ↦
      let p : loop + 1 < free_rounds = ltb→lt (loop + 1) free_rounds again in
      rw again (λ h. (refl, refl, p, (λ e. refl), omega arith))
  | inr over ↦ rw over (λ h. (refl, refl, tt, (λ e. refl), omega arith))
]
step_law thr at_end s = inl refl

outside : (pc : Pc) (n m : ℕ) → inside pc ≡ 0 → Holds pc n → Holds pc m
outside (inc_lock loop) n m e h = h
outside (inc_get loop) n m e h = h
outside (inc_set loop loaded) n m e h = absurd (omega arith)
outside (inc_unlock loop) n m e h = h
outside (show_lock loop) n m e h = h
outside (show_print loop) n m e h = h
outside (show_unlock loop) n m e h = h
outside (show_free loop) n m e h = h
outside at_end n m e h = h

finished : (pc : Pc) → work pc ≡ 0 → (left pc ≡ 0) × (inside pc ≡ 0)
finished (inc_lock loop) e = absurd (omega arith)
finished (inc_get loop) e = absurd (omega arith)
finished (inc_set loop loaded) e = absurd (omega arith)
finished (inc_unlock loop) e = absurd (omega arith)
finished (show_lock loop) e = absurd (omega arith)
finished (show_print loop) e = absurd (omega arith)
finished (show_unlock loop) e = absurd (omega arith)
finished (show_free loop) e = absurd (omega arith)
finished at_end e = (refl, refl)

pub task-IsTask : IsTask task
task-IsTask = record { step_law = step_law; outside = outside; finished = finished }

pub AllEnded-work : (pcs : List Pc) → AllEnded pcs → total task work pcs ≡ 0
unfolding total
AllEnded-work [] h = refl
AllEnded-work (at_end ∷ pcs) h = omega (arith, AllEnded-work pcs h)
AllEnded-work (inc_lock loop ∷ pcs) h = absurd h
AllEnded-work (inc_get loop ∷ pcs) h = absurd h
AllEnded-work (inc_set loop loaded ∷ pcs) h = absurd h
AllEnded-work (inc_unlock loop ∷ pcs) h = absurd h
AllEnded-work (show_lock loop ∷ pcs) h = absurd h
AllEnded-work (show_print loop ∷ pcs) h = absurd h
AllEnded-work (show_unlock loop ∷ pcs) h = absurd h
AllEnded-work (show_free loop ∷ pcs) h = absurd h

pub work-AllEnded : (pcs : List Pc) → total task work pcs ≡ 0 → AllEnded pcs
unfolding total
work-AllEnded [] e = tt
work-AllEnded (at_end ∷ pcs) e = work-AllEnded pcs (omega arith)
work-AllEnded (inc_lock loop ∷ pcs) e = absurd (omega arith)
work-AllEnded (inc_get loop ∷ pcs) e = absurd (omega arith)
work-AllEnded (inc_set loop loaded ∷ pcs) e = absurd (omega arith)
work-AllEnded (inc_unlock loop ∷ pcs) e = absurd (omega arith)
work-AllEnded (show_lock loop ∷ pcs) e = absurd (omega arith)
work-AllEnded (show_print loop ∷ pcs) e = absurd (omega arith)
work-AllEnded (show_unlock loop ∷ pcs) e = absurd (omega arith)
work-AllEnded (show_free loop ∷ pcs) e = absurd (omega arith)

pub boot-Guarded : Guarded task-IsTask 10 boot
unfolding total
boot-Guarded = record { one = refl; counted = refl; holds = (omega arith, (omega arith, tt)) }
