-- ===== src/Segment/Processes.antt =====
-- The three processes as a state machine. `strcpy` writes one byte in a step, so that the other child
-- may read a part of the text. The results of the calls on the segment are parameters; `fork` is taken
-- to succeed. What goes to the error output is left out.
use linux_app_samp.Base.{
  ltb, if◌then◌else◌, length, set, replicate, Bytes, get_or, codes, c_str, ℕ, zero, suc, ◌+◌, ◌-◌,
  Bool, true, false, Option, none, some, List, [], ◌∷◌, ◌++◌,
}
use linux_app_samp.Machine.{Reached}

-- Which of the calls succeed.
pub record Calls : Type 0 where
  pub shmget_ok : Bool
  pub shmat1_ok : Bool
  pub shmdt1_ok : Bool
  pub shmat2_ok : Bool
  pub shmdt2_ok : Bool
  pub shmctl_ok : Bool

abbrev pub k_size : ℕ
k_size = 100

abbrev pub sample : Bytes
sample = codes "sample string\n"

-- `main`: in front of a call; in `wait` with `left` children to wait for; ended with a status.
pub data MainPc : Type 0 where
  m_get m_fork1 m_fork2 : MainPc
  m_wait : (left : ℕ) → MainPc
  m_remove : MainPc
  m_exit : (success : Bool) → MainPc

-- The child of `proc_one`: not there yet, in front of a call, in `strcpy` after `copied` bytes, ended.
pub data OnePc : Type 0 where
  o_none o_start o_attach : OnePc
  o_copy : (copied : ℕ) → OnePc
  o_detach : OnePc
  o_exit : (success : Bool) → OnePc

-- The child of `proc_two`.
pub data TwoPc : Type 0 where
  w_none w_attach w_show w_detach : TwoPc
  w_exit : (success : Bool) → TwoPc

pub data Line : Type 0 where
  start_child1 proc1 dashes proc2 main_fin : Line
  shown : (text : Option Bytes) → Line  -- `%s` of the segment; none if no zero stands in it

pub record State : Type 0 where
  pub main : MainPc
  pub one : OnePc
  pub two : TwoPc
  pub segment : Bytes
  pub removed : Bool
  pub lines : List Line  -- the newest first

pub data Move : Type 0 where
  main_step one_step two_step : Move

abbrev pub start : State
start = record {
  main = m_get;
  one = o_none;
  two = w_none;
  segment = [];
  removed = false;
  lines = [];
}

-- A child that has ended, for `wait`.
abbrev pub one_over : OnePc → ℕ
one_over (o_exit success) = 1
one_over _ = 0

abbrev pub two_over : TwoPc → ℕ
two_over (w_exit success) = 1
two_over _ = 0

module _ (calls : Calls) where
  -- `wait` returns for a child that has ended and has not been waited for.
  abbrev pub wait_next : ℕ → State → Option State
  wait_next zero s = some (record s { main = m_remove })
  wait_next (suc left) s =
      if ltb (1 - left) (one_over s.one + two_over s.two)
      then some (record s { main = m_wait left })
      else none

  abbrev pub main_next : MainPc → State → Option State
  main_next m_get s = some (
      if calls.shmget_ok
      then record s { main = m_fork1; segment = replicate k_size 0 }
      else record s { main = m_exit false })
  main_next m_fork1 s = some (record s { main = m_fork2; one = o_start })
  main_next m_fork2 s = some (record s { main = m_wait 2; two = w_attach })
  main_next (m_wait left) s = wait_next left s
  main_next m_remove s = some (
      if calls.shmctl_ok
      then record s { main = m_exit true; removed = true; lines = main_fin ∷ s.lines }
      else record s { main = m_exit false })
  main_next (m_exit success) s = none

  -- One byte of the text and its zero.
  abbrev pub copy_next : ℕ → State → State
  copy_next copied s = record s {
    segment = set s.segment copied (get_or (sample ++ 0 ∷ []) copied);
    one = if ltb (copied + 1) (length sample + 1) then o_copy (copied + 1) else o_detach;
  }

  abbrev pub one_next : OnePc → State → Option State
  one_next o_none s = none
  one_next o_start s = some (record s { one = o_attach; lines = start_child1 ∷ s.lines })
  one_next o_attach s = some (record s { one = if calls.shmat1_ok then o_copy 0 else o_exit false })
  one_next (o_copy copied) s = some (copy_next copied s)
  one_next o_detach s = some (
      if calls.shmdt1_ok
      then record s { one = o_exit true; lines = proc1 ∷ s.lines }
      else record s { one = o_exit false })
  one_next (o_exit success) s = none

  abbrev pub two_next : TwoPc → State → Option State
  two_next w_none s = none
  two_next w_attach s = some (record s { two = if calls.shmat2_ok then w_show else w_exit false })
  two_next w_show s =
      some
        (record s { two = w_detach; lines = dashes ∷ shown (c_str s.segment) ∷ dashes ∷ s.lines })
  two_next w_detach s = some (
      if calls.shmdt2_ok
      then record s { two = w_exit true; lines = proc2 ∷ s.lines }
      else record s { two = w_exit false })
  two_next (w_exit success) s = none

  unfoldable pub next : Move → State → Option State
  next main_step s = main_next s.main s
  next one_step s = one_next s.one s
  next two_step s = two_next s.two s

  abbrev pub Running : State → Type 0
  Running = Reached next start
