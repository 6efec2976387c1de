-- ===== src/Counter/Exclusion.antt =====
-- The invariant of the guarded part: who is inside, and the increments that are left.
use linux_app_samp.Base.{
  ℕ, zero, suc, ◌+◌, ◌≤◌, ◌<◌, ◌≡◌, refl, sym, ◌⊎◌, inl, inr, none, some, List, [], ◌∷◌, arith,
}
use linux_app_samp.Counter.Threads.{
  Shared, Stepped, Task, IsTask, StepLaw, step_at, run, total, AllHold, first, later, or_stay,
}
use mathlib.Core.Path.{subst}

pub Nat-cases : (n : ℕ) → (n ≡ 0) ⊎ ((m : ℕ) × (n ≡ suc m))
Nat-cases zero = inl refl
Nat-cases (suc m) = inr (m, refl)

module _ {Pc : Type 0} {t : Task Pc} (laws : IsTask t) where
  -- What a step of one of the threads does to them all.
  abbrev pub TotalLaw : List Pc → Shared → Stepped (List Pc) → Type 0
  TotalLaw pcs s none = Unit
  TotalLaw pcs s (some (pcs', s')) =
      total t t.inside pcs ≤ 1
      → AllHold t pcs s.cnt
      → (s.sem + total t t.inside pcs ≡ s'.sem + total t t.inside pcs')
        × (s.cnt + total t t.left pcs ≡ s'.cnt + total t t.left pcs')
        × AllHold t pcs' s'.cnt
        × (total t t.inside pcs ≡ 0 → s'.cnt ≡ s.cnt)
        × (total t t.work pcs' < total t t.work pcs)

  AllHold-outside :
      (pcs : List Pc) (n m : ℕ) → total t t.inside pcs ≡ 0 → AllHold t pcs n → AllHold t pcs m
  unfolding total
  AllHold-outside [] n m e h = tt
  AllHold-outside (pc ∷ pcs) n m e h =
      (laws.outside pc n m (omega arith) h.0, AllHold-outside pcs n m (omega arith) h.1)

  -- Where one of two parts is outside, its counter may change or the other's is kept.
  first-TotalLaw :
      (pc : Pc) (pcs : List Pc) (s : Shared) (r : Stepped Pc)
      → StepLaw t pc s r
      → TotalLaw (pc ∷ pcs) s (first t pcs r)
  unfolding total
  first-TotalLaw pc pcs s none law = tt
  first-TotalLaw pc pcs s (some (pc', s')) law = λ few h.
      let (balance, counted, holds, quiet, less) = law h.0 in
      let rest : AllHold t pcs s'.cnt = elim (Nat-cases (t.inside pc)) [
        | inl out ↦ subst (AllHold t pcs) (sym (quiet out)) h.1
        | inr (n, e) ↦ AllHold-outside pcs s.cnt s'.cnt (omega arith) h.1
      ] in
      (omega arith, omega arith, (holds, rest), (λ e. quiet (omega arith)), omega arith)

  later-TotalLaw :
      (pc : Pc) (pcs : List Pc) (s : Shared) (r : Stepped (List Pc))
      → TotalLaw pcs s r
      → TotalLaw (pc ∷ pcs) s (later t pc r)
  unfolding total
  later-TotalLaw pc pcs s none law = tt
  later-TotalLaw pc pcs s (some (pcs', s')) law = λ few h.
      let (balance, counted, holds, quiet, less) = law (omega arith) h.1 in
      let here : t.Holds pc s'.cnt = elim (Nat-cases (total t t.inside pcs)) [
        | inl out ↦ subst (t.Holds pc) (sym (quiet out)) h.0
        | inr (n, e) ↦ laws.outside pc s.cnt s'.cnt (omega arith) h.0
      ] in
      (omega arith, omega arith, (here, holds), (λ e. quiet (omega arith)), omega arith)

  pub step_at-TotalLaw :
      (k i : ℕ) (pcs : List Pc) (s : Shared) → TotalLaw pcs s (step_at t k i pcs s)
  unfolding step_at
  step_at-TotalLaw k i [] s = tt
  step_at-TotalLaw k zero (pc ∷ pcs) s =
      first-TotalLaw pc pcs s (t.step k pc s) (laws.step_law k pc s)
  step_at-TotalLaw k (suc i) (pc ∷ pcs) s =
      later-TotalLaw pc pcs s (step_at t (suc k) i pcs s) (step_at-TotalLaw (suc k) i pcs s)

  -- The invariant: the semaphore and the threads inside make one, and the counter and the increments
  -- that are left make the sum that they made at the start.
  pub record Guarded (sum : ℕ) (now : List Pc × Shared) : Type 0 where
    pub one : now.1.sem + total t t.inside now.0 ≡ 1
    pub counted : now.1.cnt + total t t.left now.0 ≡ sum
    pub holds : AllHold t now.0 now.1.cnt

  pub or_stay-Guarded :
      (sum : ℕ) (now : List Pc × Shared) (r : Stepped (List Pc))
      → TotalLaw now.0 now.1 r
      → Guarded sum now
      → Guarded sum (or_stay t now r)
  or_stay-Guarded sum now none law g = g
  or_stay-Guarded sum now (some next) law g =
      let (balance, counted, holds, quiet, less) = law (omega (arith, g.one)) g.holds in
      record { one = omega (arith, g.one); counted = omega (arith, g.counted); holds = holds }

  pub run-Guarded :
      (sum : ℕ) (schedule : List ℕ) (now : List Pc × Shared)
      → Guarded sum now
      → Guarded sum (run t schedule now)
  unfolding run
  run-Guarded sum [] now g = g
  run-Guarded sum (i ∷ schedule) now g =
      run-Guarded sum schedule (or_stay t now (step_at t 0 i now.0 now.1))
        (or_stay-Guarded sum now (step_at t 0 i now.0 now.1) (step_at-TotalLaw 0 i now.0 now.1) g)

  total-finished :
      (pcs : List Pc)
      → total t t.work pcs ≡ 0
      → (total t t.left pcs ≡ 0) × (total t t.inside pcs ≡ 0)
  unfolding total
  total-finished [] e = (refl, refl)
  total-finished (pc ∷ pcs) e =
      let (left, inside) = total-finished pcs (omega arith) in
      let (left', inside') = laws.finished pc (omega arith) in (omega arith, omega arith)

  -- Whenever all threads have ended, the counter holds the sum, and the semaphore is free.
  pub run-sum :
      (sum : ℕ) (schedule : List ℕ) (now : List Pc × Shared)
      → Guarded sum now
      → let (pcs, s) = run t schedule now in total t t.work pcs ≡ 0 → (s.cnt ≡ sum) × (s.sem ≡ 1)
  run-sum sum schedule now g e =
      let end = run t schedule now in
      let g' = run-Guarded sum schedule now g in
      let (left, inside) = total-finished end.0 e in
      (omega (arith, g'.counted), omega (arith, g'.one))
