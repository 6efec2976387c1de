-- ===== src/Fork/Ending.antt =====
-- The three processes come to an end.
use mathlib.Core.Path.{subst}
use linux_app_samp.Base.{
  ltb, leb, Bool-cases, length, ℕ, zero, suc, ◌+◌, ◌≤◌, ◌<◌, ◌≡◌, refl, sym, ap, ◌≢◌, ◌⊎◌, inl, inr,
  Bool, true, some, List, arith,
}
use linux_app_samp.Machine.{
  here, moves, moves-Reached, moves-length, IfSome, Less, GoesOn, Ends, Ends-work,
}
use linux_app_samp.Fork.Processes.{
  MainPc, m_one, m_two, m_wait, m_exit, Child, absent, prints, over, State, Move, main_step,
  one_step, two_step, start, over_of, there_of, wait_next, one_next, two_next, main_next, next,
  Running,
}
use linux_app_samp.Fork.Lines.{Complete, main_is_last, next-Sound, Running-Sound}
use linux_app_samp.Fork.Invariant.{Sound, Children, over_le}

abbrev child_work : Child → ℕ
child_work absent = 0
child_work (prints left) = suc left
child_work over = 0

abbrev main_work : MainPc → ℕ
main_work m_one = 20
main_work m_two = 10
main_work (m_wait left) = suc left
main_work m_exit = 0

abbrev work : State → ℕ
work s = main_work s.main + child_work s.one + child_work s.two

abbrev pub AnyMove : Move → Type 0
AnyMove m = Unit

-- All three processes have ended.
abbrev pub AllOver : State → Type 0
AllOver s = (s.main ≡ m_exit) × (there_of s.one + there_of s.two ≡ over_of s.one + over_of s.two)

module _ (ok1 ok2 : Bool) (s : State) (h : Sound ok1 ok2 s) where
  abbrev GoOn : Type 0
  GoOn = GoesOn (next ok1 ok2) AnyMove AllOver work s

  go_one : (c : Child) → s.one ≡ c → Less work s (one_next c s) ⊎ (there_of s.one ≡ over_of s.one)
  go_one absent e = inr (ground (arith, e))
  go_one (prints zero) e = inl (ground (arith, e))
  go_one (prints (suc left)) e = inl (ground (arith, e))
  go_one over e = inr (ground (arith, e))

  go_two : (c : Child) → s.two ≡ c → Less work s (two_next c s) ⊎ (there_of s.two ≡ over_of s.two)
  go_two absent e = inr (ground (arith, e))
  go_two (prints zero) e = inl (ground (arith, e))
  go_two (prints (suc left)) e = inl (ground (arith, e))
  go_two over e = inr (ground (arith, e))

  -- With both children over, `wait` is not blocked.
  go_wait :
      (left : ℕ)
      → s.main ≡ m_wait (suc left)
      → there_of s.one ≡ over_of s.one
      → there_of s.two ≡ over_of s.two
      → Less work s (wait_next left s)
  go_wait left e p q =
      let w = ap main_work e in
      elim (Bool-cases (ltb s.reaped (over_of s.one + over_of s.two))) [
        | inl some_over ↦ rw some_over (omega arith)
        | inr none_over ↦
            let none_left : leb (there_of s.one + there_of s.two) s.reaped ≡ true =
              ground (arith, none_over, p, q) in
            rw none_over (rw none_left (omega arith))
      ]

  go_main : (pc : MainPc) → s.main ≡ pc → GoOn
  unfolding next
  go_main m_one e = inr (
    main_step,
    tt,
    ground (arith, e, (subst (λ pc. Children pc s.one s.two s.reaped) e h.children)),
  )
  go_main m_two e = inr (
    main_step,
    tt,
    ground (arith, e, (subst (λ pc. Children pc s.one s.two s.reaped) e h.children)),
  )
  go_main (m_wait zero) e = inr (main_step, tt, ground (arith, e))
  go_main (m_wait (suc left)) e = elim (go_one s.one refl) [
    | inl less ↦ inr (one_step, tt, less)
    | inr over1 ↦ elim (go_two s.two refl) [
      | inl less ↦ inr (two_step, tt, less)
      | inr over2 ↦ inr (
        main_step,
        tt,
        subst (λ pc. Less work s (main_next ok1 ok2 pc s)) (sym e) (go_wait left e over1 over2),
      )
    ]
  ]
  go_main m_exit e = inl (
    e,
    omega (
      arith,
      over_le s.one,
      over_le s.two,
      subst (λ pc. Children pc s.one s.two s.reaped) e h.children,
    ),
  )

-- The program cannot get stuck: whichever `fork` fails and whatever the processes have done, steps of them
-- lead to where all three have ended.
pub fork-Ends :
    (ok1 ok2 : Bool) (s : State) → Running ok1 ok2 s → Ends (next ok1 ok2) AnyMove AllOver s
fork-Ends ok1 ok2 s r =
    Ends-work (next ok1 ok2) AnyMove AllOver (Sound ok1 ok2) work (next-Sound ok1 ok2)
      (λ s h. go_main ok1 ok2 s h s.main refl) s (Running-Sound ok1 ok2 s r)

-- Every step leaves less to do.
spends_main :
    (ok1 ok2 : Bool) (s : State) (pc : MainPc)
    → s.main ≡ pc
    → Sound ok1 ok2 s
    → IfSome (λ t. work t < work s) (main_next ok1 ok2 pc s)
spends_main ok1 ok2 s m_one e h =
    ground (arith, e, (subst (λ pc. Children pc s.one s.two s.reaped) e h.children))
spends_main ok1 ok2 s m_two e h =
    ground (arith, e, (subst (λ pc. Children pc s.one s.two s.reaped) e h.children))
spends_main ok1 ok2 s (m_wait zero) e h = ground (arith, e)
spends_main ok1 ok2 s (m_wait (suc left)) e h = ground (arith, ap main_work e)
spends_main ok1 ok2 s m_exit e h = tt

spends_one : (s : State) (c : Child) → s.one ≡ c → IfSome (λ t. work t < work s) (one_next c s)
spends_one s absent e = tt
spends_one s (prints zero) e = ground (arith, e)
spends_one s (prints (suc left)) e = ground (arith, e)
spends_one s over e = tt

spends_two : (s : State) (c : Child) → s.two ≡ c → IfSome (λ t. work t < work s) (two_next c s)
spends_two s absent e = tt
spends_two s (prints zero) e = ground (arith, e)
spends_two s (prints (suc left)) e = ground (arith, e)
spends_two s over e = tt

next-spends :
    (ok1 ok2 : Bool) (m : Move) (s : State)
    → Sound ok1 ok2 s
    → IfSome (λ t. work t < work s) (next ok1 ok2 m s)
unfolding next
next-spends ok1 ok2 main_step s h = spends_main ok1 ok2 s s.main refl h
next-spends ok1 ok2 one_step s h = spends_one s s.one refl
next-spends ok1 ok2 two_step s h = spends_two s s.two refl

-- In whatever order the processes run and whichever `fork` fails: every run ends, after twenty steps at most;
-- it cannot get stuck before all three processes have ended; and once `main` has returned, the output is
-- complete, three lines of each child that was created and then that of `main`.
pub fork_runs :
    (ok1 ok2 : Bool) (ms : List Move) (s : State)
    → moves (next ok1 ok2) ms start ≡ some s
    → (length ms ≤ 20)
      × ((s.main ≢ m_exit) ⊎ Complete ok1 ok2 s.lines)
      × Ends (next ok1 ok2) AnyMove AllOver s
fork_runs ok1 ok2 ms s made = (
  omega (
    arith,
    moves-length (next ok1 ok2) (Sound ok1 ok2) work (next-Sound ok1 ok2) (next-spends ok1 ok2) ms
        start s (Running-Sound ok1 ok2 start here) made,
  ),
  at_exit s.main refl,
  fork-Ends ok1 ok2 s r,
)
  where
    r : Running ok1 ok2 s
    r = moves-Reached (next ok1 ok2) start ms start s here made

    at_exit : (pc : MainPc) → s.main ≡ pc → (s.main ≢ m_exit) ⊎ Complete ok1 ok2 s.lines
    at_exit m_one e = inl (λ q. ground (arith, e, q))
    at_exit m_two e = inl (λ q. ground (arith, e, q))
    at_exit (m_wait left) e = inl (λ q. ground (arith, e, q))
    at_exit m_exit e = inr (main_is_last ok1 ok2 s r e)
