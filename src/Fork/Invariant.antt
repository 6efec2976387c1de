-- ===== src/Fork/Invariant.antt =====
-- What is always true of the processes and their output.
use linux_app_samp.Base.{if◌then◌else◌, ℕ, ◌+◌, ◌≤◌, ◌<◌, ◌≡◌, Bool, List, [], ◌∷◌, arith}
use linux_app_samp.Fork.Processes.{
  MainPc, m_one, m_two, m_wait, m_exit, Child, absent, prints, over, Line, child_1, child_2,
  main_line, State, over_of, there_of,
}

abbrev pub same_line : Line → Line → ℕ
same_line child_1 child_1 = 1
same_line child_2 child_2 = 1
same_line main_line main_line = 1
same_line _ _ = 0

-- How often a line has been printed.
abbrev pub tally : Line → List Line → ℕ
tally l [] = 0
tally l (x ∷ xs) = same_line l x + tally l xs

abbrev pub owed : Child → ℕ
owed absent = 0
owed (prints left) = left
owed over = 0

abbrev pub asked : Bool → ℕ
asked ok = if ok then 3 else 0

abbrev pub asked_one : Bool → MainPc → ℕ
asked_one ok1 m_one = 0
asked_one ok1 _ = asked ok1

abbrev pub asked_two : Bool → MainPc → ℕ
asked_two ok2 m_one = 0
asked_two ok2 m_two = 0
asked_two ok2 _ = asked ok2

-- What is known of the children where `main` stands.
abbrev pub Children : MainPc → Child → Child → (reaped : ℕ) → Type 0
Children m_one one two reaped = (one ≡ absent) × (two ≡ absent)
Children m_two one two reaped = two ≡ absent
Children (m_wait left) one two reaped = there_of one + there_of two ≤ reaped + left
Children m_exit one two reaped = there_of one + there_of two ≤ over_of one + over_of two

abbrev pub IsLast : List Line → Type 0
IsLast [] = ⊥
IsLast (l ∷ ls) = (l ≡ main_line) × (tally main_line ls ≡ 0)

abbrev pub Closed : MainPc → List Line → Type 0
Closed m_exit lines = IsLast lines
Closed _ lines = tally main_line lines ≡ 0

pub record Sound (ok1 ok2 : Bool) (s : State) : Type 0 where
  pub ones : tally child_1 s.lines + owed s.one ≡ asked_one ok1 s.main
  pub twos : tally child_2 s.lines + owed s.two ≡ asked_two ok2 s.main
  pub children : Children s.main s.one s.two s.reaped
  pub reaped_le : s.reaped ≤ over_of s.one + over_of s.two
  pub closed : Closed s.main s.lines

pub over_le : (c : Child) → over_of c ≤ there_of c
over_le absent = omega arith
over_le (prints left) = omega arith
over_le over = omega arith

-- A child that goes on is there as before.
pub still_one :
    (pc : MainPc) (c c' two : Child) (reaped : ℕ)
    → there_of c ≡ 1
    → there_of c' ≡ 1
    → over_of c ≤ over_of c'
    → Children pc c two reaped
    → Children pc c' two reaped
still_one m_one c c' two reaped p q le h = absurd (ground (arith, p, h.0))
still_one m_two c c' two reaped p q le h = h
still_one (m_wait left) c c' two reaped p q le h = omega (arith, p, q, h)
still_one m_exit c c' two reaped p q le h = omega (arith, p, q, h, le)

pub still_two :
    (pc : MainPc) (one c c' : Child) (reaped : ℕ)
    → there_of c ≡ 1
    → there_of c' ≡ 1
    → over_of c ≤ over_of c'
    → Children pc one c reaped
    → Children pc one c' reaped
still_two m_one one c c' reaped p q le h = absurd (ground (arith, p, h.1))
still_two m_two one c c' reaped p q le h = absurd (ground (arith, p, h))
still_two (m_wait left) one c c' reaped p q le h = omega (arith, p, q, h)
still_two m_exit one c c' reaped p q le h = omega (arith, p, q, h, le)

-- While a child runs, `main` has not returned.
pub Closed-more :
    (pc : MainPc) (l : Line) (one two : Child) (reaped : ℕ) (lines : List Line)
    → same_line main_line l ≡ 0
    → over_of one + over_of two < there_of one + there_of two
    → Children pc one two reaped
    → Closed pc lines
    → Closed pc (l ∷ lines)
Closed-more m_one l one two reaped lines p q h closed = omega (arith, p, closed)
Closed-more m_two l one two reaped lines p q h closed = omega (arith, p, closed)
Closed-more (m_wait left) l one two reaped lines p q h closed = omega (arith, p, closed)
Closed-more m_exit l one two reaped lines p q h closed = absurd (omega (arith, q, h))
