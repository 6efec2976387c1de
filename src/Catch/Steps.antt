-- ===== src/Catch/Steps.antt =====
-- Each step and each delivery keeps the invariant.
use mathlib.Core.Path.{subst}
use linux_app_samp.Base.{
  if◌then◌else◌, Bool-cases, set, zero, suc, ◌≡◌, refl, ◌≢◌, ◌⊎◌, inl, inr, Bool, true, false, ◌&&◌,
  none, some, arith,
}
use linux_app_samp.Machine.{IfSome}
use linux_app_samp.Catch.Processes.{
  ParentPc, p_fork, p_loop, p_print, p_exit, ChildPc, c_none, c_set_int, c_set_hup, c_test, c_print,
  c_exit, c_killed, hup_catch, child_end, State, lives, parent_next, child_next, func_int, func_hup,
  killed,
}
use linux_app_samp.Catch.Invariant.{
  tally, HandlersAt, IsEnded, IsBegun, Sound, ended_more, begun_more,
}

module _ (s : State) (h : Sound s) where
  ended_at :
      (c : ChildPc) → s.child ≡ c → IsEnded c (tally child_end s.lines) (tally hup_catch s.lines)
  ended_at c e =
      subst (λ c. IsEnded c (tally child_end s.lines) (tally hup_catch s.lines)) e h.ended

  set_at : (c : ChildPc) → s.child ≡ c → HandlersAt c s.int_set s.hup_set
  set_at c e = subst (λ c. HandlersAt c s.int_set s.hup_set) e h.is_set

  begun_at : (pc : ParentPc) → s.parent ≡ pc → IsBegun pc s.child
  begun_at pc e = subst (λ pc. IsBegun pc s.child) e h.begun

  pub keep_parent : (pc : ParentPc) → s.parent ≡ pc → IfSome Sound (parent_next pc s)
  keep_parent p_fork e = record {
    ints = ground (arith, h.ints, e);
    hups = ground (arith, h.hups, e);
    fins = h.fins;
    ended = ended_at c_none (begun_at p_fork e);
    parent_ended = ground (arith, h.parent_ended, e);
    is_set = set_at c_none (begun_at p_fork e);
    begun = λ q. ground (arith, q);
  }
  keep_parent (p_loop (suc left)) e = record {
    ints = ground (arith, h.ints, e);
    hups = ground (arith, h.hups, e);
    fins = h.fins;
    ended = h.ended;
    parent_ended = ground (arith, h.parent_ended, e);
    is_set = h.is_set;
    begun = begun_at _ e;
  }
  keep_parent (p_loop zero) e = record {
    ints = ground (arith, h.ints, e);
    hups = ground (arith, h.hups, e);
    fins = h.fins;
    ended = h.ended;
    parent_ended = ground (arith, h.parent_ended, e);
    is_set = h.is_set;
    begun = begun_at _ e;
  }
  keep_parent p_print e = record {
    ints = ground (arith, h.ints, e);
    hups = ground (arith, h.hups, e);
    fins = ground (arith, h.fins);
    ended = ended_more s.child _ _ _ _ (omega arith) (omega arith) h.ended;
    parent_ended = ground (arith, h.parent_ended, e);
    is_set = h.is_set;
    begun = begun_at _ e;
  }
  keep_parent p_exit e = tt

  pub keep_child : (c : ChildPc) → s.child ≡ c → IfSome Sound (child_next c s)
  keep_child c_none e = tt
  keep_child c_set_int e = record {
    ints = h.ints;
    hups = h.hups;
    fins = h.fins;
    ended = ended_at c_set_int e;
    parent_ended = h.parent_ended;
    is_set = (refl, (set_at c_set_int e).1);
    begun =
        begun_more s.parent s.child c_set_hup (λ q. ground (arith, e, q)) (λ q. ground (arith, q))
          h.begun;
  }
  keep_child c_set_hup e = record {
    ints = h.ints;
    hups = h.hups;
    fins = h.fins;
    ended = ended_at c_set_hup e;
    parent_ended = h.parent_ended;
    is_set = ((set_at c_set_hup e).0, refl);
    begun =
        begun_more s.parent s.child c_test (λ q. ground (arith, e, q)) (λ q. ground (arith, q))
          h.begun;
  }
  keep_child c_test e = elim (Bool-cases s.fin) [
    | inl fin ↦ rw fin (record {
      ints = h.ints;
      hups = h.hups;
      fins = ground (arith, h.fins, fin);
      ended = (ended_at c_test e, ground (arith, h.fins, fin));
      parent_ended = h.parent_ended;
      is_set = set_at c_test e;
      begun =
          begun_more s.parent s.child c_print (λ q. ground (arith, e, q)) (λ q. ground (arith, q))
            h.begun;
    })
    | inr waits ↦ rw waits tt
  ]
  keep_child c_print e = record {
    ints = omega (arith, h.ints);
    hups = omega (arith, h.hups);
    fins = omega (arith, h.fins);
    ended = (omega (arith, (ended_at c_print e).0), omega (arith, (ended_at c_print e).1));
    parent_ended = omega (arith, h.parent_ended);
    is_set = set_at c_print e;
    begun =
        begun_more s.parent s.child c_exit (λ q. ground (arith, e, q)) (λ q. ground (arith, q))
          h.begun;
  }
  keep_child c_exit e = tt
  keep_child c_killed e = tt

  -- A child that lives without its second handler has not printed.
  early :
      (c : ChildPc) → s.child ≡ c → lives c ≡ true → s.hup_set ≡ false → tally child_end s.lines ≡ 0
  early c_none e alive unset = ended_at c_none e
  early c_set_int e alive unset = ended_at c_set_int e
  early c_set_hup e alive unset = ended_at c_set_hup e
  early c_test e alive unset = ended_at c_test e
  early c_print e alive unset = (ended_at c_print e).0
  early c_exit e alive unset = ground (arith, alive)
  early c_killed e alive unset = ended_at c_killed e

  no_int : (c : ChildPc) → s.child ≡ c → lives c ≡ true → s.int_set ≡ false → s.hup_set ≡ false
  no_int c_none e alive unset = (set_at c_none e).1
  no_int c_set_int e alive unset = (set_at c_set_int e).1
  no_int c_set_hup e alive unset = (set_at c_set_hup e).1
  no_int c_test e alive unset = ground (arith, unset, set_at c_test e)
  no_int c_print e alive unset = ground (arith, unset, set_at c_print e)
  no_int c_exit e alive unset = ground (arith, alive)
  no_int c_killed e alive unset = set_at c_killed e

  -- A signal that has no handler kills; then the second `signal` has not been reached.
  killed-Sound : s.hup_set ≡ false → lives s.child ≡ true → Sound (killed s)
  killed-Sound unset alive = record {
    ints = ground (arith, h.ints);
    hups = ground (arith, h.hups);
    fins = h.fins;
    ended = early s.child refl alive unset;
    parent_ended = h.parent_ended;
    is_set = unset;
    begun =
        begun_more s.parent s.child c_killed (λ q. ground (arith, alive, q))
          (λ q. ground (arith, q)) h.begun;
  }

  func_int-Sound : s.int_pending ≡ true → Sound (func_int s)
  func_int-Sound pending = record {
    ints = ground (arith, h.ints, pending);
    hups = omega (arith, h.hups);
    fins = omega (arith, h.fins);
    ended = ended_more s.child _ _ _ _ (omega arith) (omega arith) h.ended;
    parent_ended = omega (arith, h.parent_ended);
    is_set = h.is_set;
    begun = h.begun;
  }

  func_hup-Sound : s.hup_pending ≡ true → Sound (func_hup s)
  func_hup-Sound pending = record {
    ints = omega (arith, h.ints);
    hups = ground (arith, h.hups, pending);
    fins = ground arith;
    ended = ended_more s.child _ _ _ _ (omega arith) (omega arith) h.ended;
    parent_ended = omega (arith, h.parent_ended);
    is_set = h.is_set;
    begun = h.begun;
  }

  pub kill_early : (c : ChildPc) → s.child ≡ c → (s.child ≢ c_killed) ⊎ (s.hup_set ≡ false)
  kill_early c_killed e = inr (set_at c_killed e)
  kill_early c_none e = inl (λ q. ground (arith, e, q))
  kill_early c_set_int e = inl (λ q. ground (arith, e, q))
  kill_early c_set_hup e = inl (λ q. ground (arith, e, q))
  kill_early c_test e = inl (λ q. ground (arith, e, q))
  kill_early c_print e = inl (λ q. ground (arith, e, q))
  kill_early c_exit e = inl (λ q. ground (arith, e, q))

  pub keep_int :
      (pending alive set : Bool)
      → s.int_pending ≡ pending
      → lives s.child ≡ alive
      → s.int_set ≡ set
      → IfSome Sound
          (if pending && alive then some (if set then func_int s else killed s) else none)
  keep_int true true true p a i = func_int-Sound p
  keep_int true true false p a i = killed-Sound (no_int s.child refl a i) a
  keep_int true false set p a i = tt
  keep_int false alive set p a i = tt

  pub keep_hup :
      (pending alive set : Bool)
      → s.hup_pending ≡ pending
      → lives s.child ≡ alive
      → s.hup_set ≡ set
      → IfSome Sound
          (if pending && alive then some (if set then func_hup s else killed s) else none)
  keep_hup true true true p a i = func_hup-Sound p
  keep_hup true true false p a i = killed-Sound i a
  keep_hup true false set p a i = tt
  keep_hup false alive set p a i = tt
