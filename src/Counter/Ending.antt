-- ===== src/Counter/Ending.antt =====
-- Which threads can go on, and the work that is left.
use linux_app_samp.Base.{
  ltb, ltb→lt, Bool-cases, ℕ, zero, suc, ◌+◌, ◌≤◌, ◌<◌, ◌≡◌, inl, inr, none, some, List, [], ◌∷◌,
  arith,
}
use linux_app_samp.Counter.Threads.{
  Shared, Stepped, Task, IsTask, StepLaw, step_at, run, total, first, later, or_stay,
}
use linux_app_samp.Counter.Exclusion.{
  Nat-cases, Guarded, TotalLaw, step_at-TotalLaw, or_stay-Guarded,
}

abbrev pub Goes : {A : Type 0} → Stepped A → Type 0
Goes none = ⊥
Goes (some next) = Unit

module _ {Pc : Type 0} {t : Task Pc} (laws : IsTask t) where
  first-Goes : (pcs : List Pc) (r : Stepped Pc) → Goes r → Goes (first t pcs r)
  first-Goes pcs none g = g
  first-Goes pcs (some next) g = g

  later-Goes : (pc : Pc) (r : Stepped (List Pc)) → Goes r → Goes (later t pc r)
  later-Goes pc none g = g
  later-Goes pc (some next) g = g

  -- A thread with work left goes on if it is inside or the semaphore is free.
  step-Goes :
      (pc : Pc) (s : Shared) (r : Stepped Pc)
      → StepLaw t pc s r
      → 0 < t.work pc
      → 0 < t.inside pc + s.sem
      → Goes r
  step-Goes pc s none (inl ended) more free = omega arith
  step-Goes pc s none (inr (out, shut)) more free = omega arith
  step-Goes pc s (some next) law more free = tt

  free-Goes :
      (k : ℕ) (pcs : List Pc) (s : Shared)
      → 0 < total t t.work pcs
      → 0 < s.sem
      → (i : ℕ) × Goes (step_at t k i pcs s)
  unfolding step_at total
  free-Goes k [] s more free = absurd (omega arith)
  free-Goes k (pc ∷ pcs) s more free = elim (Bool-cases (ltb 0 (t.work pc))) [
    | inl busy ↦ (
      0,
      first-Goes pcs (t.step k pc s) (
          step-Goes pc s (t.step k pc s) (laws.step_law k pc s) (ltb→lt 0 (t.work pc) busy)
            (omega arith)),
    )
    | inr idle ↦
        let (i, goes) = free-Goes (suc k) pcs s (ground arith) free in
        (suc i, later-Goes pc (step_at t (suc k) i pcs s) goes)
  ]

  inside-work : (pc : Pc) → 0 < t.inside pc → 0 < t.work pc
  inside-work pc h = elim (Nat-cases (t.work pc)) [
    | inl e ↦ omega (arith, laws.finished pc e)
    | inr (n, e) ↦ omega arith
  ]

  inside-Goes :
      (k : ℕ) (pcs : List Pc) (s : Shared)
      → 0 < total t t.inside pcs
      → (i : ℕ) × Goes (step_at t k i pcs s)
  unfolding step_at total
  inside-Goes k [] s some_in = absurd (omega arith)
  inside-Goes k (pc ∷ pcs) s some_in = elim (Bool-cases (ltb 0 (t.inside pc))) [
    | inl in_here ↦ (
      0,
      first-Goes pcs (t.step k pc s) (
          step-Goes pc s (t.step k pc s) (laws.step_law k pc s)
            (inside-work pc (ltb→lt 0 (t.inside pc) in_here))
            (omega (arith, ltb→lt 0 (t.inside pc) in_here))),
    )
    | inr out ↦
        let (i, goes) = inside-Goes (suc k) pcs s (ground arith) in
        (suc i, later-Goes pc (step_at t (suc k) i pcs s) goes)
  ]

  -- While a thread has work left, one can go on: no deadlock.
  pub Guarded-Goes :
      (sum : ℕ) (now : List Pc × Shared)
      → Guarded laws sum now
      → 0 < total t t.work now.0
      → (i : ℕ) × Goes (step_at t 0 i now.0 now.1)
  Guarded-Goes sum now g more = elim (Bool-cases (ltb 0 now.1.sem)) [
    | inl free ↦ free-Goes 0 now.0 now.1 more (ltb→lt 0 now.1.sem free)
    | inr shut ↦ inside-Goes 0 now.0 now.1 (ground (arith, g.one))
  ]

  -- Each step that is taken leaves less work.
  or_stay-work :
      (sum : ℕ) (now : List Pc × Shared) (r : Stepped (List Pc))
      → TotalLaw laws now.0 now.1 r
      → Guarded laws sum now
      → Goes r
      → total t t.work (or_stay t now r).0 < total t t.work now.0
  or_stay-work sum now none law g goes = absurd goes
  or_stay-work sum now (some next) law g goes = (law (omega (arith, g.one)) g.holds).4

  ends_within :
      (fuel sum : ℕ) (now : List Pc × Shared)
      → total t t.work now.0 ≤ fuel
      → Guarded laws sum now
      → (schedule : List ℕ) × (total t t.work (run t schedule now).0 ≡ 0)
  unfolding run
  ends_within zero sum now p g = ([], omega arith)
  ends_within (suc fuel) sum now p g = elim (Bool-cases (ltb 0 (total t t.work now.0))) [
    | inr idle ↦ ([], ground arith)
    | inl busy ↦
        let (i, goes) = Guarded-Goes sum now g (ltb→lt 0 (total t t.work now.0) busy) in
        let r = step_at t 0 i now.0 now.1 in
        let law = step_at-TotalLaw laws 0 i now.0 now.1 in
        let (schedule, e) =
          ends_within fuel sum (or_stay t now r) (omega (arith, or_stay-work sum now r law g goes))
            (or_stay-Guarded laws sum now r law g) in
        (i ∷ schedule, e)
  ]

  -- From every guarded state a schedule leads to the end.
  pub Guarded-ends :
      (sum : ℕ) (now : List Pc × Shared)
      → Guarded laws sum now
      → (schedule : List ℕ) × (total t t.work (run t schedule now).0 ≡ 0)
  Guarded-ends sum now g = ends_within (total t t.work now.0) sum now (omega arith) g
