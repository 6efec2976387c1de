-- ===== src/Counter/Threads.antt =====
-- Threads that share a counter and a semaphore or mutex, and the interface of their code.
use linux_app_samp.Base.{
  ltb, if◌then◌else◌, Bytes, value, ℕ, zero, suc, ◌+◌, ◌-◌, ◌<◌, ◌≡◌, ◌⊎◌, Option, none, some, List,
  [], ◌∷◌,
}

-- `sem` is the value of the semaphore; a mutex has 1 while it is free. The lines stand newest first.
pub record Shared : Type 0 where
  pub cnt : ℕ
  pub sem : ℕ
  pub lines : List Bytes

abbrev pub Stepped : Type 0 → Type 0
Stepped A = Option (A × Shared)

-- The code of a thread: where it is, and its next step, for the thread of a number; none if it has
-- ended or is blocked. The rest describes it: 1 inside the guarded part, the increments and the steps
-- that are left, and what holds of the counter at a point of the code.
pub record Task (Pc : Type 0) : Type 1 where
  pub step : ℕ → Pc → Shared → Stepped Pc
  pub inside : Pc → ℕ
  pub left : Pc → ℕ
  pub work : Pc → ℕ
  pub Holds : Pc → ℕ → Type 0

-- `sem_wait` and `pthread_mutex_lock`: blocked while the value is 0.
abbrev pub wait : {Pc : Type 0} → Pc → Shared → Stepped Pc
wait next s = if ltb 0 s.sem then some (next, record s { sem = s.sem - 1 }) else none

-- `sem_post` and `pthread_mutex_unlock`
abbrev pub post : {Pc : Type 0} → Pc → Shared → Stepped Pc
post next s = some (next, record s { sem = s.sem + 1 })

abbrev pub store : {Pc : Type 0} → ℕ → Pc → Shared → Stepped Pc
store value next s = some (next, record s { cnt = value })

abbrev pub say : {Pc : Type 0} → Bytes → Pc → Shared → Stepped Pc
say line next s = some (next, record s { lines = line ∷ s.lines })

module _ {Pc : Type 0} (t : Task Pc) where
  -- What a step does: it keeps the semaphore and the number inside balanced, counts each increment
  -- once, touches the counter only inside, and leaves less to do. A thread stops only when it has
  -- nothing to do, or outside with the semaphore at 0.
  abbrev pub StepLaw : Pc → Shared → Stepped Pc → Type 0
  StepLaw pc s none = (t.work pc ≡ 0) ⊎ ((t.inside pc ≡ 0) × (s.sem ≡ 0))
  StepLaw pc s (some (pc', s')) =
      t.Holds pc s.cnt
      → (s.sem + t.inside pc ≡ s'.sem + t.inside pc')
        × (s.cnt + t.left pc ≡ s'.cnt + t.left pc')
        × t.Holds pc' s'.cnt
        × (t.inside pc ≡ 0 → s'.cnt ≡ s.cnt)
        × (t.work pc' < t.work pc)

  pub record IsTask : Type 0 where
    pub step_law : (i : ℕ) (pc : Pc) (s : Shared) → StepLaw pc s (t.step i pc s)
    pub outside : (pc : Pc) (n m : ℕ) → t.inside pc ≡ 0 → t.Holds pc n → t.Holds pc m
    pub finished : (pc : Pc) → t.work pc ≡ 0 → (t.left pc ≡ 0) × (t.inside pc ≡ 0)

  abbrev pub first : List Pc → Stepped Pc → Stepped (List Pc)
  first pcs none = none
  first pcs (some (pc, s)) = some (pc ∷ pcs, s)

  abbrev pub later : Pc → Stepped (List Pc) → Stepped (List Pc)
  later pc none = none
  later pc (some (pcs, s)) = some (pc ∷ pcs, s)

  -- A step of the `i`th of the threads, the first of which has the number `k`.
  unfoldable pub step_at : ℕ → ℕ → List Pc → Shared → Stepped (List Pc)
  step_at k i [] s = none
  step_at k zero (pc ∷ pcs) s = first pcs (t.step k pc s)
  step_at k (suc i) (pc ∷ pcs) s = later pc (step_at (suc k) i pcs s)

  abbrev pub or_stay : List Pc × Shared → Stepped (List Pc) → List Pc × Shared
  or_stay now none = now
  or_stay now (some next) = next

  -- A schedule names the thread that is to run next; one that cannot stays as it is.
  unfoldable pub run : List ℕ → List Pc × Shared → List Pc × Shared
  unfolding step_at
  run [] now = now
  run (i ∷ schedule) now = run schedule (or_stay now (step_at 0 i now.0 now.1))

  unfoldable pub total : (Pc → ℕ) → List Pc → ℕ
  total f [] = 0
  total f (pc ∷ pcs) = f pc + total f pcs

  abbrev pub AllHold : List Pc → ℕ → Type 0
  AllHold [] n = Unit
  AllHold (pc ∷ pcs) n = t.Holds pc n × AllHold pcs n
