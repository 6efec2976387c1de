-- ===== src/Argument/Finish.antt =====
-- The threads and `main` come to an end.
use mathlib.Core.Path.{subst}
use linux_app_samp.Base.{
  ltb, ◌==◌, if◌then◌else◌, Bool-cases, length, ℕ, zero, suc, ◌+◌, ◌-◌, ◌≤◌, ◌<◌, ◌≡◌, refl, sym,
  ap, ◌≢◌, ◌⊎◌, inl, inr, true, false, none, some, List, arith,
}
use linux_app_samp.Machine.{
  here, moves, moves-Reached, moves-length, IfSome, Less, GoesOn, Ends, Ends-work,
}
use linux_app_samp.Argument.Threads.{
  Heap, MainPc, a_create, a_join, a_done, ThreadPc, t_none, t_read, t_print, t_free, t_end, State,
  Move, main_step, thread_step, k_num, is_end, create_at, join_at, start, read_block, free_block,
  thread_next, main_next, next, Running,
}
use linux_app_samp.Argument.Places.{is_there, Place, InLoop, Owns, tally}
use linux_app_samp.Argument.Blocks.{Sound, IsFresh}
use linux_app_samp.Argument.Numbers.{next-Sound, Running-Sound, numbers_once}

abbrev thread_work : ThreadPc → ℕ
thread_work t_none = 5
thread_work (t_read arg) = 4
thread_work (t_print arg v) = 3
thread_work (t_free arg) = 2
thread_work t_end = 0

abbrev sum_work : ℕ → (ℕ → ThreadPc) → ℕ
sum_work zero threads = 0
sum_work (suc n) threads = thread_work (threads n) + sum_work n threads

abbrev main_work : MainPc → ℕ
main_work (a_create i) = 40 - i
main_work (a_join i) = 20 - i
main_work a_done = 0

abbrev work : State → ℕ
work s = main_work s.main + sum_work k_num s.threads

same_sum :
    (n i : ℕ) (t : ThreadPc) (threads : ℕ → ThreadPc)
    → n ≤ i
    → sum_work n (λ j. if i == j then t else threads j) ≡ sum_work n threads
same_sum zero i t threads p = refl
same_sum (suc n) i t threads p = ground (arith, p, same_sum n i t threads (omega arith))

less_sum :
    (n i : ℕ) (t : ThreadPc) (threads : ℕ → ThreadPc)
    → i < n
    → thread_work t < thread_work (threads i)
    → sum_work n (λ j. if i == j then t else threads j) < sum_work n threads
less_sum zero i t threads p less = absurd (omega arith)
less_sum (suc n) i t threads p less = elim (Bool-cases (i == n)) [
  | inl last ↦
      let e : i ≡ n = ground (arith, last) in
      rw last (
        omega (
          arith,
          same_sum n i t threads (omega (arith, e)),
          less,
          ap (λ k. thread_work (threads k)) e,
        ))
  | inr before ↦ rw before (omega (arith, less_sum n i t threads (ground (arith, p, before)) less))
]

create_work : (i : ℕ) → i < k_num → main_work (create_at (i + 1)) < main_work (a_create i)
create_work i few = elim (Bool-cases (ltb (i + 1) k_num)) [
  | inl more ↦ rw more (omega arith)
  | inr last ↦ rw last (omega arith)
]

join_work : (i : ℕ) → i < k_num → main_work (join_at (i + 1)) < main_work (a_join i)
join_work i few = elim (Bool-cases (ltb (i + 1) k_num)) [
  | inl more ↦ rw more (omega arith)
  | inr last ↦ rw last (omega arith)
]

abbrev pub AnyMove : Move → Type 0
AnyMove m = Unit

abbrev pub Returned : State → Type 0
Returned s = s.main ≡ a_done

module _ (malloc : Heap → ℕ → ℕ) (s : State) (h : Sound s) where
  abbrev GoOn : Type 0
  GoOn = GoesOn (next malloc) AnyMove Returned work s

  few_at : (m : MainPc) → s.main ≡ m → InLoop m
  few_at m e = subst InLoop e h.in_loop

  -- A step of a thread does some of its work.
  go_thread :
      (i : ℕ) (t : ThreadPc)
      → i < k_num
      → s.threads i ≡ t
      → is_there t ≡ true
      → is_end t ≡ false
      → Less work s (thread_next i t s)
  go_thread i t_none few e there runs = ground (arith, there)
  go_thread i (t_read arg) few e there runs =
      subst (λ o. Less work s (some (read_block i arg o s)))
        (sym (subst (Owns s.heap i) e (h.owns i)))
        (omega (
          arith,
          less_sum k_num i (t_print arg i) s.threads few (ground (arith, ap thread_work e)),
        ))
  go_thread i (t_print arg v) few e there runs =
      omega (arith, less_sum k_num i (t_free arg) s.threads few (ground (arith, ap thread_work e)))
  go_thread i (t_free arg) few e there runs =
      subst (λ o. Less work s (some (free_block i arg o s)))
        (sym (subst (Owns s.heap i) e (h.owns i)))
        (omega (arith, less_sum k_num i t_end s.threads few (ground (arith, ap thread_work e))))
  go_thread i t_end few e there runs = ground (arith, runs)

  create-Less : (i : ℕ) → s.main ≡ a_create i → Less work s (main_next malloc (a_create i) s)
  create-Less i e =
      let few : i < k_num = few_at (a_create i) e in
      omega (
        arith,
        ap main_work e,
        create_work i few,
        less_sum k_num i (t_read (malloc s.heap s.top)) s.threads few
            (ground (arith, (subst (λ m. Place m i (s.threads i)) e (h.place i)))),
      )

  join-Less :
      (i : ℕ)
      → s.main ≡ a_join i
      → is_end (s.threads i) ≡ true
      → Less work s (main_next malloc (a_join i) s)
  join-Less i e ended = rw ended (omega (arith, ap main_work e, join_work i (few_at (a_join i) e)))

  go_main : (m : MainPc) → s.main ≡ m → GoOn
  unfolding next
  go_main (a_create i) e =
      inr (main_step, tt, subst (λ m. Less work s (main_next malloc m s)) (sym e) (create-Less i e))
  go_main (a_join i) e =
      let few : i < k_num = few_at (a_join i) e in
      elim (Bool-cases (is_end (s.threads i))) [
        | inl ended ↦ inr (
          main_step,
          tt,
          subst (λ m. Less work s (main_next malloc m s)) (sym e) (join-Less i e ended),
        )
        | inr runs ↦ inr (
          thread_step i,
          tt,
          go_thread i (s.threads i) few refl
              (ground (arith, few, (subst (λ m. Place m i (s.threads i)) e (h.place i)))) runs,
        )
      ]
  go_main a_done e = inl e

  -- Every step leaves less to do; a thread that there is has a number below ten.
  few_there :
      (m : MainPc) (i : ℕ) (t : ThreadPc) → InLoop m → Place m i t → is_there t ≡ true → i < k_num
  few_there (a_create k) i t few place there = ground (arith, few, place, there)
  few_there (a_join k) i t few place there = ground (arith, place, there)
  few_there a_done i t few place there = ground (arith, place, there)

  spends_there :
      (i : ℕ) (t : ThreadPc)
      → s.threads i ≡ t
      → is_there t ≡ true
      → is_end t ≡ false
      → Less work s (thread_next i t s)
  spends_there i t e there runs =
      go_thread i t (few_there s.main i t h.in_loop (subst (Place s.main i) e (h.place i)) there) e
        there runs

  spends_thread :
      (i : ℕ) (t : ThreadPc) → s.threads i ≡ t → IfSome (λ u. work u < work s) (thread_next i t s)
  spends_thread i t_none e = tt
  spends_thread i (t_read arg) e = spends_there i (t_read arg) e refl refl
  spends_thread i (t_print arg v) e = spends_there i (t_print arg v) e refl refl
  spends_thread i (t_free arg) e = spends_there i (t_free arg) e refl refl
  spends_thread i t_end e = tt

  spends_main : (m : MainPc) → s.main ≡ m → IfSome (λ u. work u < work s) (main_next malloc m s)
  spends_main (a_create i) e = create-Less i e
  spends_main (a_join i) e = elim (Bool-cases (is_end (s.threads i))) [
    | inl ended ↦ rw ended (omega (arith, ap main_work e, join_work i (few_at (a_join i) e)))
    | inr runs ↦ rw runs tt
  ]
  spends_main a_done e = tt

next-spends :
    (malloc : Heap → ℕ → ℕ) (m : Move) (s : State)
    → Sound s
    → IfSome (λ u. work u < work s) (next malloc m s)
unfolding next
next-spends malloc main_step s h = spends_main malloc s h s.main refl
next-spends malloc (thread_step i) s h = spends_thread malloc s h i (s.threads i) refl

-- Whichever blocks `malloc` gives and in whatever order the threads run: every run ends, after ninety steps at
-- most; no block is used that is not allocated; each number below ten has been printed at most once, and no
-- other; once `main` has returned, each has been printed and all blocks are free again; and the run cannot
-- get stuck before that.
pub argument_runs :
    (malloc : Heap → ℕ → ℕ) (ms : List Move) (s : State) (j p : ℕ)
    → IsFresh malloc
    → moves (next malloc) ms start ≡ some s
    → (length ms ≤ 90)
      × ((s.broken ≡ false)
          × (tally j s.lines ≤ (if ltb j k_num then 1 else 0))
          × ((s.main ≢ a_done)
              ⊎ ((tally j s.lines ≡ (if ltb j k_num then 1 else 0)) × (s.heap p ≡ none))))
      × Ends (next malloc) AnyMove Returned s
argument_runs malloc ms s j p fresh made =
    let r : Running malloc s = moves-Reached (next malloc) start ms start s here made in
    (
      omega (
        arith,
        moves-length (next malloc) Sound work (next-Sound malloc fresh) (next-spends malloc) ms
            start s (Running-Sound malloc fresh start here) made,
      ),
      numbers_once malloc fresh s j p r,
      Ends-work (next malloc) AnyMove Returned Sound work (next-Sound malloc fresh)
          (λ s h. go_main malloc s h s.main refl) s (Running-Sound malloc fresh s r),
    )
