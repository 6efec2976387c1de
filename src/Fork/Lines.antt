-- ===== src/Fork/Lines.antt =====
-- Which lines stand in the output, and which is the last.
use mathlib.Core.Path.{subst}
use linux_app_samp.Base.{
  ltb, leb, Bool-cases, ℕ, zero, suc, ◌+◌, ◌≤◌, ◌≡◌, refl, ap, ◌∙◌, inl, inr, Bool, Option, List,
  [], ◌∷◌, arith,
}
use linux_app_samp.Machine.{IfSome, Reached-invariant}
use linux_app_samp.Fork.Processes.{
  MainPc, m_one, m_two, m_wait, m_exit, Child, absent, prints, over, Line, child_1, child_2,
  main_line, State, Move, main_step, one_step, two_step, start, over_of, there_of, wait_next,
  one_next, two_next, main_next, next, Running,
}
use linux_app_samp.Fork.Invariant.{
  tally, owed, asked, asked_one, asked_two, Children, IsLast, Closed, Sound, over_le, still_one,
  still_two, Closed-more,
}

module _ (ok1 ok2 : Bool) (s : State) (h : Sound ok1 ok2 s) where
  abbrev Kept : Option State → Type 0
  Kept = IfSome (Sound ok1 ok2)

  at_main : (pc : MainPc) → s.main ≡ pc → Children pc s.one s.two s.reaped
  at_main pc e = subst (λ pc. Children pc s.one s.two s.reaped) e h.children

  open_lines : (pc : MainPc) → s.main ≡ pc → Closed pc s.lines
  open_lines pc e = subst (λ pc. Closed pc s.lines) e h.closed

  keep_wait : (left : ℕ) → s.main ≡ m_wait (suc left) → Kept (wait_next left s)
  keep_wait left e =
      let there = at_main (m_wait (suc left)) e in
      let kept : (reaped : ℕ)
          → reaped ≤ over_of s.one + over_of s.two
          → there_of s.one + there_of s.two ≤ reaped + left
          → Sound ok1 ok2 (record s { main = m_wait left; reaped = reaped }) =
        λ reaped p q. record {
          ones = h.ones ∙ ap (asked_one ok1) e;
          twos = h.twos ∙ ap (asked_two ok2) e;
          children = q;
          reaped_le = p;
          closed = open_lines (m_wait (suc left)) e;
        } in
      elim (Bool-cases (ltb s.reaped (over_of s.one + over_of s.two))) [
        | inl some_over ↦
            rw some_over (kept (s.reaped + 1) (ground (arith, some_over)) (omega arith))
        | inr none_over ↦
            rw none_over (elim (Bool-cases (leb (there_of s.one + there_of s.two) s.reaped)) [
              | inl none_left ↦ rw none_left (kept s.reaped h.reaped_le (ground (arith, none_left)))
              | inr blocked ↦ rw blocked tt
            ])
      ]

  keep_main : (pc : MainPc) → s.main ≡ pc → Kept (main_next ok1 ok2 pc s)
  keep_main m_one e =
      let alone = at_main m_one e in
      record {
        ones = ground (arith, h.ones, alone, e);
        twos = ground (arith, h.twos, alone, e);
        children = alone.1;
        reaped_le = ground (arith, h.reaped_le, alone);
        closed = open_lines m_one e;
      }
  keep_main m_two e =
      let alone = at_main m_two e in
      record {
        ones = h.ones ∙ ap (asked_one ok1) e;
        twos = ground (arith, h.twos, alone, e);
        children = ground (arith, alone);
        reaped_le = ground (arith, h.reaped_le, alone);
        closed = open_lines m_two e;
      }
  keep_main (m_wait zero) e = record {
    ones = omega (arith, h.ones, ap (asked_one ok1) e);
    twos = omega (arith, h.twos, ap (asked_two ok2) e);
    children = omega (arith, at_main (m_wait 0) e, h.reaped_le);
    reaped_le = h.reaped_le;
    closed = (refl, open_lines (m_wait 0) e);
  }
  keep_main (m_wait (suc left)) e = keep_wait left e
  keep_main m_exit e = tt

  keep_one : (c : Child) → s.one ≡ c → Kept (one_next c s)
  keep_one absent e = tt
  keep_one (prints zero) e = record {
    ones = ground (arith, h.ones, e);
    twos = h.twos;
    children =
        still_one s.main _ _ s.two s.reaped (ap there_of e) refl (ground (arith, e)) h.children;
    reaped_le = ground (arith, h.reaped_le, e);
    closed = h.closed;
  }
  keep_one (prints (suc left)) e = record {
    ones = ground (arith, h.ones, e);
    twos = omega (arith, h.twos);
    children =
        still_one s.main _ _ s.two s.reaped (ap there_of e) refl (ground (arith, e)) h.children;
    reaped_le = ground (arith, h.reaped_le, e);
    closed =
        Closed-more s.main child_1 s.one s.two s.reaped s.lines refl
          (ground (arith, e, over_le s.two)) h.children h.closed;
  }
  keep_one over e = tt

  keep_two : (c : Child) → s.two ≡ c → Kept (two_next c s)
  keep_two absent e = tt
  keep_two (prints zero) e = record {
    ones = h.ones;
    twos = ground (arith, h.twos, e);
    children =
        still_two s.main s.one _ _ s.reaped (ap there_of e) refl (ground (arith, e)) h.children;
    reaped_le = ground (arith, h.reaped_le, e);
    closed = h.closed;
  }
  keep_two (prints (suc left)) e = record {
    ones = omega (arith, h.ones);
    twos = ground (arith, h.twos, e);
    children =
        still_two s.main s.one _ _ s.reaped (ap there_of e) refl (ground (arith, e)) h.children;
    reaped_le = ground (arith, h.reaped_le, e);
    closed =
        Closed-more s.main child_2 s.one s.two s.reaped s.lines refl
          (ground (arith, e, over_le s.one)) h.children h.closed;
  }
  keep_two over e = tt

pub next-Sound :
    (ok1 ok2 : Bool) (m : Move) (s : State)
    → Sound ok1 ok2 s
    → IfSome (Sound ok1 ok2) (next ok1 ok2 m s)
unfolding next
next-Sound ok1 ok2 main_step s h = keep_main ok1 ok2 s h s.main refl
next-Sound ok1 ok2 one_step s h = keep_one ok1 ok2 s h s.one refl
next-Sound ok1 ok2 two_step s h = keep_two ok1 ok2 s h s.two refl

pub Running-Sound : (ok1 ok2 : Bool) (s : State) → Running ok1 ok2 s → Sound ok1 ok2 s
Running-Sound ok1 ok2 =
    Reached-invariant (next ok1 ok2) (Sound ok1 ok2) start
      (record {
        ones = refl;
        twos = refl;
        children = (refl, refl);
        reaped_le = omega arith;
        closed = refl;
      })
      (next-Sound ok1 ok2)

-- The output of the whole program: the last line is the parent's, and in front of it stand three lines of
-- each child that was created.
abbrev pub Complete : Bool → Bool → List Line → Type 0
Complete ok1 ok2 [] = ⊥
Complete ok1 ok2 (l ∷ ls) =
    (l ≡ main_line)
    × (tally main_line ls ≡ 0)
    × (tally child_1 ls ≡ asked ok1)
    × (tally child_2 ls ≡ asked ok2)

complete :
    (ok1 ok2 : Bool) (ls : List Line)
    → IsLast ls
    → tally child_1 ls ≡ asked ok1
    → tally child_2 ls ≡ asked ok2
    → Complete ok1 ok2 ls
complete ok1 ok2 [] last p q = absurd last
complete ok1 ok2 (l ∷ ls) last p q =
    (last.0, last.1, ground (arith, last.0, p), ground (arith, last.0, q))

none_owed :
    (one two : Child)
    → there_of one + there_of two ≤ over_of one + over_of two
    → owed one ≡ 0 × owed two ≡ 0
none_owed one two p = ground (arith, over_le one, over_le two)

-- In whatever order the processes run and whichever `fork` fails: once `main` has returned, the output is
-- complete, with `main` as its last line.
pub main_is_last :
    (ok1 ok2 : Bool) (s : State) → Running ok1 ok2 s → s.main ≡ m_exit → Complete ok1 ok2 s.lines
main_is_last ok1 ok2 s r e =
    let h = Running-Sound ok1 ok2 s r in
    let none_left = none_owed s.one s.two (at_main ok1 ok2 s h m_exit e) in
    complete ok1 ok2 s.lines (open_lines ok1 ok2 s h m_exit e)
      (omega (arith, h.ones, none_left.0, ap (asked_one ok1) e))
      (omega (arith, h.twos, none_left.1, ap (asked_two ok2) e))
