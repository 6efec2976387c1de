-- ===== src/Catch/Invariant.antt =====
-- What is always true of the processes and the signals under way.
use linux_app_samp.Base.{
  if◌then◌else◌, ℕ, ◌+◌, ◌≤◌, ◌≡◌, ◌∙◌, ◌≢◌, Bool, true, false, List, [], ◌∷◌, arith,
}
use linux_app_samp.Catch.Processes.{
  ParentPc, p_fork, p_loop, p_print, p_exit, ChildPc, c_none, c_set_int, c_set_hup, c_test, c_print,
  c_exit, c_killed, Line, int_catch, hup_catch, child_end, parent_end, State,
}

abbrev pub same_line : Line → Line → ℕ
same_line int_catch int_catch = 1
same_line hup_catch hup_catch = 1
same_line child_end child_end = 1
same_line parent_end parent_end = 1
same_line _ _ = 0

-- How often a line has been printed.
abbrev pub tally : Line → List Line → ℕ
tally l [] = 0
tally l (x ∷ xs) = same_line l x + tally l xs

abbrev pub count : Bool → ℕ
count b = if b then 1 else 0

-- The signals that the parent has still to send.
abbrev pub ints_left : ParentPc → ℕ
ints_left p_fork = 3
ints_left (p_loop left) = left
ints_left _ = 0

abbrev pub hups_left : ParentPc → ℕ
hups_left p_fork = 1
hups_left (p_loop left) = 1
hups_left _ = 0

abbrev pub end_left : ParentPc → ℕ
end_left p_exit = 0
end_left _ = 1

-- The handlers that are set where the child stands.
abbrev pub HandlersAt : ChildPc → (int_set hup_set : Bool) → Type 0
HandlersAt c_none i h = (i ≡ false) × (h ≡ false)
HandlersAt c_set_int i h = (i ≡ false) × (h ≡ false)
HandlersAt c_set_hup i h = (i ≡ true) × (h ≡ false)
HandlersAt c_killed i h = h ≡ false
HandlersAt _ i h = (i ≡ true) × (h ≡ true)

-- The child's own last line, and how often SIGHUP was caught before.
abbrev pub IsEnded : ChildPc → (ends hups : ℕ) → Type 0
IsEnded c_print ends hups = (ends ≡ 0) × (1 ≤ hups)
IsEnded c_exit ends hups = (ends ≡ 1) × (1 ≤ hups)
IsEnded _ ends hups = ends ≡ 0

abbrev pub IsBegun : ParentPc → ChildPc → Type 0
IsBegun p_fork c = c ≡ c_none
IsBegun _ c = c ≢ c_none

pub record Sound (s : State) : Type 0 where
  pub ints : tally int_catch s.lines + count s.int_pending + ints_left s.parent ≤ 3
  pub hups : tally hup_catch s.lines + count s.hup_pending + hups_left s.parent ≤ 1
  pub fins : count s.fin ≤ tally hup_catch s.lines
  pub ended : IsEnded s.child (tally child_end s.lines) (tally hup_catch s.lines)
  pub parent_ended : tally parent_end s.lines + end_left s.parent ≡ 1
  pub is_set : HandlersAt s.child s.int_set s.hup_set
  pub begun : IsBegun s.parent s.child

pub ended_more :
    (c : ChildPc) (ends hups ends' hups' : ℕ)
    → ends' ≡ ends
    → hups ≤ hups'
    → IsEnded c ends hups
    → IsEnded c ends' hups'
ended_more c_none ends hups ends' hups' p q h = p ∙ h
ended_more c_set_int ends hups ends' hups' p q h = p ∙ h
ended_more c_set_hup ends hups ends' hups' p q h = p ∙ h
ended_more c_test ends hups ends' hups' p q h = p ∙ h
ended_more c_print ends hups ends' hups' p q h = (p ∙ h.0, omega (arith, q, h.1))
ended_more c_exit ends hups ends' hups' p q h = (p ∙ h.0, omega (arith, q, h.1))
ended_more c_killed ends hups ends' hups' p q h = p ∙ h

pub ends_le : (c : ChildPc) (ends hups : ℕ) → IsEnded c ends hups → ends ≤ hups
ends_le c_none ends hups h = omega (arith, h)
ends_le c_set_int ends hups h = omega (arith, h)
ends_le c_set_hup ends hups h = omega (arith, h)
ends_le c_test ends hups h = omega (arith, h)
ends_le c_print ends hups h = omega (arith, h.0)
ends_le c_exit ends hups h = omega (arith, h.0, h.1)
ends_le c_killed ends hups h = omega (arith, h)

-- A child that is there stays begun.
pub begun_more :
    (pc : ParentPc) (c c' : ChildPc) → c ≢ c_none → c' ≢ c_none → IsBegun pc c → IsBegun pc c'
begun_more p_fork c c' p q h = absurd (p h)
begun_more (p_loop left) c c' p q h = q
begun_more p_print c c' p q h = q
begun_more p_exit c c' p q h = q
