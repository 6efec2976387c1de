-- ===== src/Catch/Processes.antt =====
-- ipc-signal.c as a state machine: the steps of the parent, those of the child, and the deliveries of
-- pending signals to the child, between its steps. `fork` is taken to succeed, and so is `write`; a
-- handler stays set after a delivery. Time is left out: `sleep` orders nothing.
use linux_app_samp.Base.{
  if◌then◌else◌, ℕ, zero, suc, Bool, true, false, ◌&&◌, Option, none, some, List, [], ◌∷◌,
}
use linux_app_samp.Machine.{Reached}

-- The parent: before `fork`, in the loop with `left` rounds to go, in front of the call behind it, of its
-- `printf`, ended.
pub data ParentPc : Type 0 where
  p_fork : ParentPc
  p_loop : (left : ℕ) → ParentPc
  p_print p_exit : ParentPc

-- The child: not there, in front of a call of `signal`, at the test of the loop, in front of `printf`,
-- ended, killed by a signal.
pub data ChildPc : Type 0 where
  c_none c_set_int c_set_hup c_test c_print c_exit c_killed : ChildPc

pub data Line : Type 0 where
  int_catch hup_catch child_end parent_end : Line

pub record State : Type 0 where
  pub parent : ParentPc
  pub child : ChildPc
  pub int_set : Bool  -- `funcInt` is the handler
  pub hup_set : Bool
  pub int_pending : Bool  -- a signal that is pending already is not counted again
  pub hup_pending : Bool
  pub fin : Bool  -- `g_fin` of the child
  pub lines : List Line  -- the newest first

pub data Move : Type 0 where
  parent_step child_step int_arrives hup_arrives : Move

abbrev pub start : State
start = record {
  parent = p_fork;
  child = c_none;
  int_set = false;
  hup_set = false;
  int_pending = false;
  hup_pending = false;
  fin = false;
  lines = [];
}

abbrev pub lives : ChildPc → Bool
lives c_none = false
lives c_exit = false
lives c_killed = false
lives _ = true

-- A round of the loop sends SIGINT, the call behind it SIGHUP; a child that has ended gets nothing.
abbrev pub parent_next : ParentPc → State → Option State
parent_next p_fork s = some (record s { parent = p_loop 3; child = c_set_int })
parent_next (p_loop (suc left)) s =
    some (record s { parent = p_loop left; int_pending = lives s.child })
parent_next (p_loop zero) s = some (record s { parent = p_print; hup_pending = lives s.child })
parent_next p_print s = some (record s { parent = p_exit; lines = parent_end ∷ s.lines })
parent_next p_exit s = none

abbrev pub child_next : ChildPc → State → Option State
child_next c_set_int s = some (record s { child = c_set_hup; int_set = true })
child_next c_set_hup s = some (record s { child = c_test; hup_set = true })
child_next c_test s = if s.fin then some (record s { child = c_print }) else none
child_next c_print s = some (record s { child = c_exit; lines = child_end ∷ s.lines })
child_next _ s = none

-- `funcInt`
abbrev pub func_int : State → State
func_int s = record s { int_pending = false; lines = int_catch ∷ s.lines }

-- `funcHup`
abbrev pub func_hup : State → State
func_hup s = record s { hup_pending = false; fin = true; lines = hup_catch ∷ s.lines }

abbrev pub killed : State → State
killed s = record s { child = c_killed; int_pending = false; hup_pending = false }

-- A signal without a handler kills.
unfoldable pub next : Move → State → Option State
next parent_step s = parent_next s.parent s
next child_step s = child_next s.child s
next int_arrives s =
    if s.int_pending && lives s.child
    then some (if s.int_set then func_int s else killed s)
    else none
next hup_arrives s =
    if s.hup_pending && lives s.child
    then some (if s.hup_set then func_hup s else killed s)
    else none

abbrev pub Running : State → Type 0
Running = Reached next start
