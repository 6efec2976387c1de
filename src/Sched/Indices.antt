-- ===== src/Sched/Indices.antt =====
-- Which index each thread has, and when it counts.
use mathlib.Core.Path.{subst}
use linux_app_samp.Base.{
  ltb, Bool-cases, ◌<◌, ℕ, ◌+◌, ◌≡◌, refl, sym, ap, ◌∙◌, ◌≢◌, ◌⊎◌, inl, inr, arith,
}
use linux_app_samp.Machine.{IfSome, Reached-invariant}
use linux_app_samp.Sched.HandOff.{
  MainPc, f_create, f_created, f_wait, f_woken, f_join, f_done, ThreadPc, t_none, t_read, t_lock,
  t_gate, t_count, t_end, State, Move, main_step, thread_step, wakes, k_num_thread, start, m1_free,
  m2_free, is_end, main_next, thread_next, next, signals_only, Running,
}
use linux_app_samp.Sched.Places.{
  Place, Variable, IsThrough, read_place, lock_place, gate_place, count_place, through_end, joined,
  all_joined, signalled-Variable, Sound,
}

-- A thread behind the gate, with its own index.
module _ (s : State) (h : Sound s) where
  place_at : (m : MainPc) → s.main ≡ m → (j : ℕ) → Place m j (s.threads j)
  place_at m e = subst (λ m. (j : ℕ) → Place m j (s.threads j)) e h.place

  Variable-at : (m : MainPc) → s.main ≡ m → Variable m s.loop
  Variable-at m e = subst (λ m. Variable m s.loop) e h.variable

  keep_main : (m : MainPc) → s.main ≡ m → IfSome Sound (main_next m s)
  keep_main (f_create i) e = record {
    place = λ j. ground (arith, place_at (f_create i) e j);
    variable = Variable-at (f_create i) e;
  }
  keep_main (f_created i) e = record {
    place = place_at (f_created i) e;
    variable = Variable-at (f_created i) e;
  }
  keep_main (f_wait i) e = tt
  keep_main (f_woken i) e = elim (Bool-cases (ltb (i + 1) k_num_thread)) [
    | inl more ↦
        rw more (record { place = place_at (f_woken i) e; variable = (refl, ground (arith, more)) })
    | inr all ↦ rw all (record {
      place = λ j. ground (arith, all, place_at (f_woken i) e j, Variable-at (f_woken i) e);
      variable = omega arith;
    })
  ]
  keep_main (f_join i) e = elim (Bool-cases (is_end (s.threads i))) [
    | inl ended ↦
        let here : s.threads i ≡ t_end i =
          through_end i (s.threads i) (Variable-at (f_join i) e) ended (place_at (f_join i) e i) in
        let is_joined : (j : ℕ) → j ≡ i → s.threads j ≡ t_end j =
          λ j q. ap s.threads q ∙ here ∙ ap t_end (sym q) in
        rw ended (elim (Bool-cases (ltb (i + 1) k_num_thread)) [
          | inl more ↦ rw more (record {
            place = λ j. joined j (s.threads j) i (is_joined j) (place_at (f_join i) e j);
            variable = ground (arith, more);
          })
          | inr all ↦ rw all (record {
            place = λ j.
                all_joined j (s.threads j) i all (Variable-at (f_join i) e) (is_joined j)
                  (place_at (f_join i) e j);
            variable = tt;
          })
        ])
    | inr runs ↦ rw runs tt
  ]
  keep_main f_done e = tt

  place_of : (i : ℕ) (t : ThreadPc) → s.threads i ≡ t → Place s.main i t
  place_of i t e = subst (Place s.main i) e (h.place i)

  keep_thread : (i : ℕ) (t : ThreadPc) → s.threads i ≡ t → IfSome Sound (thread_next i t s)
  keep_thread i t_none e = tt
  keep_thread i t_read e = record {
    place = λ j.
        read_place i j (s.threads j) s.main s.loop (place_of i t_read e) h.variable (h.place j);
    variable = h.variable;
  }
  keep_thread i (t_lock index) e = elim (Bool-cases (m1_free s.main)) [
    | inl free ↦ rw free (record {
      place = λ j.
          lock_place i j (s.threads j) s.main index free (place_of i (t_lock index) e) (h.place j);
      variable = signalled-Variable s.main s.loop h.variable;
    })
    | inr held ↦ rw held tt
  ]
  keep_thread i (t_gate index) e = elim (Bool-cases (m2_free s.main)) [
    | inl free ↦ rw free (record {
      place = λ j.
          gate_place i j (s.threads j) s.main index free (place_of i (t_gate index) e) (h.place j);
      variable = h.variable;
    })
    | inr held ↦ rw held tt
  ]
  keep_thread i (t_count index) e = record {
    place =
        λ j. count_place i j (s.threads j) s.main index (place_of i (t_count index) e) (h.place j);
    variable = h.variable;
  }
  keep_thread i (t_end index) e = tt

pub next-Sound : (m : Move) (s : State) → Sound s → IfSome Sound (signals_only m s)
unfolding next
next-Sound main_step s h = keep_main s h s.main refl
next-Sound (thread_step i) s h = keep_thread s h i (s.threads i) refl
next-Sound wakes s h = tt

pub Running-Sound : (s : State) → Running s → Sound s
Running-Sound =
    Reached-invariant signals_only Sound start
      (record { place = λ j. ground arith; variable = (refl, omega arith) }) next-Sound

-- A thread that has read its index.
abbrev pub HasIndex : ThreadPc → ℕ → Type 0
HasIndex t index =
    (t ≡ t_lock index) ⊎ ((t ≡ t_gate index) ⊎ ((t ≡ t_count index) ⊎ (t ≡ t_end index)))

-- A thread that has no index yet, or its own.
abbrev pub OwnIndex : ℕ → ThreadPc → Type 0
OwnIndex i t = (t ≡ t_none) ⊎ ((t ≡ t_read) ⊎ HasIndex t i)

place-OwnIndex : (m : MainPc) (i : ℕ) (t : ThreadPc) → Place m i t → OwnIndex i t
place-OwnIndex (f_create k) i t here = ground (arith, here)
place-OwnIndex (f_created k) i t here = ground (arith, here)
place-OwnIndex (f_wait k) i t here = ground (arith, here)
place-OwnIndex (f_woken k) i t here = ground (arith, here)
place-OwnIndex (f_join k) i t here = ground (arith, here)
place-OwnIndex f_done i t here = ground (arith, here)

-- While a thread counts, each of the three has its index and has signalled.
counts-IsThrough :
    (m : MainPc) (i index j : ℕ) (t u : ThreadPc)
    → Place m i t
    → Place m j u
    → j < k_num_thread
    → (t ≢ t_count index) ⊎ IsThrough j u
counts-IsThrough (f_create k) i index j t u here there few = inl (λ q. ground (arith, here, q))
counts-IsThrough (f_created k) i index j t u here there few = inl (λ q. ground (arith, here, q))
counts-IsThrough (f_wait k) i index j t u here there few = inl (λ q. ground (arith, here, q))
counts-IsThrough (f_woken k) i index j t u here there few = inl (λ q. ground (arith, here, q))
counts-IsThrough (f_join k) i index j t u here there few = inr (ground (arith, there, few))
counts-IsThrough f_done i index j t u here there few = inr (ground (arith, there, few))

-- In every order of the threads, if no wait returns without a signal: each has its own index or none
-- yet, and while one counts all three have theirs.
pub hand_off :
    (s : State) (i index j : ℕ)
    → Running s
    → j < k_num_thread
    → OwnIndex i (s.threads i) × ((s.threads i ≢ t_count index) ⊎ IsThrough j (s.threads j))
hand_off s i index j r few =
    let h = Running-Sound s r in
    (
      place-OwnIndex s.main i (s.threads i) (h.place i),
      counts-IsThrough s.main i index j (s.threads i) (s.threads j) (h.place i) (h.place j) few,
    )
