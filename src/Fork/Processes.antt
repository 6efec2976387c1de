-- ===== src/Fork/Processes.antt =====
-- The three processes as a state machine: a step of a child is a round of its loop. Whether `fork`
-- succeeds is a parameter; time is left out.
use mathlib.Core.Option
use linux_app_samp.Base.{
  ltb, leb, if◌then◌else◌, ℕ, zero, suc, ◌+◌, Bool, Option, none, some, List, [], ◌∷◌,
}
use linux_app_samp.Machine.{Reached}

-- `main`: in front of `proc_one`, in front of `proc_two`, in the loop with `left` calls of `wait` to make,
-- returned.
pub data MainPc : Type 0 where
  m_one m_two : MainPc
  m_wait : (left : ℕ) → MainPc
  m_exit : MainPc

-- A child: not there, in its loop with `left` lines to print, ended.
pub data Child : Type 0 where
  absent : Child
  prints : (left : ℕ) → Child
  over : Child

pub data Line : Type 0 where
  child_1 child_2 main_line : Line

pub record State : Type 0 where
  pub main : MainPc
  pub one : Child
  pub two : Child
  pub reaped : ℕ  -- the children that `wait` has returned
  pub lines : List Line  -- the newest first

pub data Move : Type 0 where
  main_step one_step two_step : Move

abbrev pub start : State
start = record { main = m_one; one = absent; two = absent; reaped = 0; lines = [] }

abbrev pub forked : Bool → Child
forked ok = if ok then prints 3 else absent

-- A child that has ended, and one that has been created.
abbrev pub over_of : Child → ℕ
over_of absent = 0
over_of (prints left) = 0
over_of over = 1

abbrev pub there_of : Child → ℕ
there_of absent = 0
there_of (prints left) = 1
there_of over = 1

-- `wait` takes a child that has ended and fails at once if all have been taken; else it is blocked.
abbrev pub wait_next : ℕ → State → Option State
wait_next left s =
    if ltb s.reaped (over_of s.one + over_of s.two)
    then some (record s { main = m_wait left; reaped = s.reaped + 1 })
    else if leb (there_of s.one + there_of s.two) s.reaped
    then some (record s { main = m_wait left })
    else none

-- A round of the loop, or its end.
abbrev pub child_next : Child → Option Child
child_next absent = none
child_next (prints zero) = some over
child_next (prints (suc left)) = some (prints left)
child_next over = none

abbrev pub said : Child → Line → List Line → List Line
said (prints (suc left)) line lines = line ∷ lines
said _ line lines = lines

abbrev pub one_next : Child → State → Option State
one_next c s =
    Option.map (λ c'. record s { one = c'; lines = said c child_1 s.lines }) (child_next c)

abbrev pub two_next : Child → State → Option State
two_next c s =
    Option.map (λ c'. record s { two = c'; lines = said c child_2 s.lines }) (child_next c)

module _ (ok1 ok2 : Bool) where
  abbrev pub main_next : MainPc → State → Option State
  main_next m_one s = some (record s { main = m_two; one = forked ok1 })
  main_next m_two s = some (record s { main = m_wait 2; two = forked ok2 })
  main_next (m_wait (suc left)) s = wait_next left s
  main_next (m_wait zero) s = some (record s { main = m_exit; lines = main_line ∷ s.lines })
  main_next m_exit s = none

  unfoldable pub next : Move → State → Option State
  next main_step s = main_next s.main s
  next one_step s = one_next s.one s
  next two_step s = two_next s.two s

  abbrev pub Running : State → Type 0
  Running = Reached next start
