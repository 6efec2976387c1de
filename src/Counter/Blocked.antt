-- ===== src/Counter/Blocked.antt =====
-- semaphore_named_blocked.c: `testFunc` looks at the semaphore before it waits, says `blocked` if it is
-- 0, and sleeps inside the guarded part. The increment is a load and a store.
use linux_app_samp.Base.{
  ltb, ◌==◌, if◌then◌else◌, ltb→lt, Bool-cases, replicate, Bytes, codes, dec, ℕ, zero, suc, ◌+◌,
  ◌-◌, ◌*◌, ◌<◌, ◌≡◌, refl, inl, inr, none, some, List, [], ◌∷◌, ◌++◌, arith,
}
use linux_app_samp.Counter.Threads.{
  Shared, Stepped, Task, IsTask, StepLaw, total, AllHold, wait, post, store, say,
}
use linux_app_samp.Counter.Exclusion.{Guarded}

-- Where a thread is, with its `loop`, and the value that it has loaded.
pub data Pc : Type 0 where
  at_get at_wait at_load : (loop : ℕ) → Pc
  at_store : (loop loaded : ℕ) → Pc
  at_print at_post : (loop : ℕ) → Pc
  at_end : Pc

abbrev pub rounds : ℕ
rounds = 5

-- `sem_getvalue` and what is said of its result.
abbrev pub look : Pc → Shared → Stepped Pc
look next s = if s.sem == 0 then say (codes "blocked\n") next s else some (next, s)

-- "g_cnt : %d > %d\n"
unfoldable pub cnt_line : ℕ → ℕ → Bytes
cnt_line thr_idx cnt = codes "g_cnt : " ++ (dec thr_idx ++ (codes " > " ++ (dec cnt ++ 10 ∷ [])))

-- The head of the `for`, after `loop++`.
abbrev pub next_round : ℕ → Pc
next_round loop = if ltb (loop + 1) rounds then at_get (loop + 1) else at_end

unfoldable pub step : ℕ → Pc → Shared → Stepped Pc
unfolding cnt_line
step thr_idx (at_get loop) s = look (at_wait loop) s
step thr_idx (at_wait loop) s = wait (at_load loop) s
step thr_idx (at_load loop) s = some (at_store loop s.cnt, s)
step thr_idx (at_store loop loaded) s = store (loaded + 1) (at_print loop) s
step thr_idx (at_print loop) s = say (cnt_line thr_idx s.cnt) (at_post loop) s
step thr_idx (at_post loop) s = post (next_round loop) s
step thr_idx at_end s = none

-- The threads that `main` creates, all with `loop` 0, and the semaphore that `sem_open` creates with 1.
abbrev pub k_num : ℕ
k_num = 10

abbrev pub boot : List Pc × Shared
boot = (replicate k_num (at_get 0), record { cnt = 0; sem = 1; lines = [] })

-- What the joins of `main` wait for.
abbrev pub AllEnded : List Pc → Type 0
AllEnded [] = Unit
AllEnded (at_end ∷ pcs) = AllEnded pcs
AllEnded (_ ∷ pcs) = ⊥

abbrev inside : Pc → ℕ
inside (at_get loop) = 0
inside (at_wait loop) = 0
inside at_end = 0
inside _ = 1

abbrev left : Pc → ℕ
left (at_get loop) = rounds - loop
left (at_wait loop) = rounds - loop
left (at_load loop) = rounds - loop
left (at_store loop loaded) = rounds - loop
left (at_print loop) = rounds - loop - 1
left (at_post loop) = rounds - loop - 1
left at_end = 0

abbrev work : Pc → ℕ
work (at_get loop) = 6 * (rounds - loop - 1) + 6
work (at_wait loop) = 6 * (rounds - loop - 1) + 5
work (at_load loop) = 6 * (rounds - loop - 1) + 4
work (at_store loop loaded) = 6 * (rounds - loop - 1) + 3
work (at_print loop) = 6 * (rounds - loop - 1) + 2
work (at_post loop) = 6 * (rounds - loop - 1) + 1
work at_end = 0

abbrev Holds : Pc → ℕ → Type 0
Holds (at_get loop) cnt = loop < rounds
Holds (at_wait loop) cnt = loop < rounds
Holds (at_load loop) cnt = loop < rounds
Holds (at_store loop loaded) cnt = (loop < rounds) × (loaded ≡ cnt)
Holds (at_print loop) cnt = loop < rounds
Holds (at_post loop) cnt = loop < rounds
Holds at_end cnt = Unit

abbrev pub task : Task Pc
task = record { step = step; inside = inside; left = left; work = work; Holds = Holds }

step_law : (thr_idx : ℕ) (pc : Pc) (s : Shared) → StepLaw task pc s (step thr_idx pc s)
unfolding step
step_law thr_idx (at_get loop) s = elim (Bool-cases (s.sem == 0)) [
  | inl shut ↦ rw shut (λ h. (refl, refl, h, (λ e. refl), omega arith))
  | inr free ↦ rw free (λ h. (refl, refl, h, (λ e. refl), omega arith))
]
step_law thr_idx (at_wait loop) s = elim (Bool-cases (ltb 0 s.sem)) [
  | inl free ↦
      rw free (λ h. (omega (arith, ltb→lt 0 s.sem free), refl, h, (λ e. refl), omega arith))
  | inr shut ↦ rw shut (inr (refl, ground arith))
]
step_law thr_idx (at_load loop) s = λ h. (refl, refl, (h, refl), (λ e. refl), omega arith)
step_law thr_idx (at_store loop loaded) s =
    λ h. (refl, omega (arith, h.0, h.1), h.0, (λ e. absurd (omega arith)), omega arith)
step_law thr_idx (at_print loop) s = λ h. (refl, refl, h, (λ e. refl), omega arith)
step_law thr_idx (at_post loop) s = elim (Bool-cases (ltb (loop + 1) rounds)) [
  | inl again ↦
      let p : loop + 1 < rounds = ltb→lt (loop + 1) rounds again in
      rw again (λ h. (omega arith, omega arith, p, (λ e. refl), omega arith))
  | inr over ↦ rw over (λ h. (omega arith, ground arith, tt, (λ e. refl), omega arith))
]
step_law thr_idx at_end s = inl refl

outside : (pc : Pc) (n m : ℕ) → inside pc ≡ 0 → Holds pc n → Holds pc m
outside (at_get loop) n m e h = h
outside (at_wait loop) n m e h = h
outside (at_load loop) n m e h = h
outside (at_store loop loaded) n m e h = absurd (omega arith)
outside (at_print loop) n m e h = h
outside (at_post loop) n m e h = h
outside at_end n m e h = h

finished : (pc : Pc) → work pc ≡ 0 → (left pc ≡ 0) × (inside pc ≡ 0)
finished (at_get loop) e = absurd (omega arith)
finished (at_wait loop) e = absurd (omega arith)
finished (at_load loop) e = absurd (omega arith)
finished (at_store loop loaded) e = absurd (omega arith)
finished (at_print loop) e = absurd (omega arith)
finished (at_post loop) e = absurd (omega arith)
finished at_end e = (refl, refl)

pub task-IsTask : IsTask task
task-IsTask = record { step_law = step_law; outside = outside; finished = finished }

pub AllEnded-work : (pcs : List Pc) → AllEnded pcs → total task work pcs ≡ 0
unfolding total
AllEnded-work [] h = refl
AllEnded-work (at_end ∷ pcs) h = omega (arith, AllEnded-work pcs h)
AllEnded-work (at_get loop ∷ pcs) h = absurd h
AllEnded-work (at_wait loop ∷ pcs) h = absurd h
AllEnded-work (at_load loop ∷ pcs) h = absurd h
AllEnded-work (at_store loop loaded ∷ pcs) h = absurd h
AllEnded-work (at_print loop ∷ pcs) h = absurd h
AllEnded-work (at_post loop ∷ pcs) h = absurd h

pub work-AllEnded : (pcs : List Pc) → total task work pcs ≡ 0 → AllEnded pcs
unfolding total
work-AllEnded [] e = tt
work-AllEnded (at_end ∷ pcs) e = work-AllEnded pcs (omega arith)
work-AllEnded (at_get loop ∷ pcs) e = absurd (omega arith)
work-AllEnded (at_wait loop ∷ pcs) e = absurd (omega arith)
work-AllEnded (at_load loop ∷ pcs) e = absurd (omega arith)
work-AllEnded (at_store loop loaded ∷ pcs) e = absurd (omega arith)
work-AllEnded (at_print loop ∷ pcs) e = absurd (omega arith)
work-AllEnded (at_post loop ∷ pcs) e = absurd (omega arith)

AllHold-replicate : (n : ℕ) → AllHold task (replicate n (at_get 0)) 0
unfolding replicate
AllHold-replicate zero = tt
AllHold-replicate (suc n) = (omega arith, AllHold-replicate n)

pub boot-Guarded : Guarded task-IsTask 50 boot
unfolding replicate total
boot-Guarded = record { one = refl; counted = refl; holds = AllHold-replicate k_num }
