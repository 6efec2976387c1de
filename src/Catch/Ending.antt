-- ===== src/Catch/Ending.antt =====
-- SIGHUP is not lost, so that the child comes to an end.
use mathlib.Core.Path.{subst}
use linux_app_samp.Base.{
  Bool-cases, ℕ, zero, suc, ◌+◌, ◌*◌, ◌≤◌, ◌≡◌, refl, ◌⊎◌, inl, inr, Option, none, some, arith,
}
use linux_app_samp.Machine.{here, IfSome, GoesOn, Reached-invariant, Ends, Ends-work}
use linux_app_samp.Catch.Processes.{
  ParentPc, p_fork, p_loop, p_print, p_exit, ChildPc, c_none, c_set_int, c_set_hup, c_test, c_print,
  c_exit, c_killed, State, Move, parent_step, child_step, int_arrives, hup_arrives, start, lives,
  parent_next, child_next, next, Running,
}
use linux_app_samp.Catch.Invariant.{count, hups_left, HandlersAt, IsBegun, Sound}
use linux_app_samp.Catch.Handlers.{next-Sound, Running-Sound}

-- While the child lives, SIGHUP is to be sent, is pending or has been caught.
abbrev Told : State → Type 0
Told s = count (lives s.child) ≤ hups_left s.parent + count s.hup_pending + count s.fin

parent-Told : (s : State) (pc : ParentPc) → s.parent ≡ pc → Told s → IfSome Told (parent_next pc s)
parent-Told s p_fork e h = ground arith
parent-Told s (p_loop (suc left)) e h = ground (arith, e, h)
parent-Told s (p_loop zero) e h = ground (arith, e, h)
parent-Told s p_print e h = ground (arith, e, h)
parent-Told s p_exit e h = tt

child-Told : (s : State) (c : ChildPc) → s.child ≡ c → Told s → IfSome Told (child_next c s)
child-Told s c_none e h = tt
child-Told s c_set_int e h = ground (arith, e, h)
child-Told s c_set_hup e h = ground (arith, e, h)
child-Told s c_test e h = elim (Bool-cases s.fin) [
  | inl fin ↦ rw fin (ground arith)
  | inr waits ↦ rw waits tt
]
child-Told s c_print e h = ground arith
child-Told s c_exit e h = tt
child-Told s c_killed e h = tt

next-Told : (m : Move) (s : State) → Told s → IfSome Told (next m s)
unfolding next
next-Told parent_step s h = parent-Told s s.parent refl h
next-Told child_step s h = child-Told s s.child refl h
next-Told int_arrives s h = ground (arith, h)
next-Told hup_arrives s h = ground (arith, h)

abbrev parent_work : ParentPc → ℕ
parent_work p_fork = 30
parent_work (p_loop left) = 2 * left + 5
parent_work p_print = 2
parent_work p_exit = 0

abbrev child_work : ChildPc → ℕ
child_work c_none = 0
child_work c_set_int = 5
child_work c_set_hup = 4
child_work c_test = 3
child_work c_print = 2
child_work c_exit = 0
child_work c_killed = 0

abbrev work : State → ℕ
work s = parent_work s.parent + child_work s.child + count s.int_pending + count s.hup_pending

abbrev pub AnyMove : Move → Type 0
AnyMove m = Unit

abbrev pub AllOver : State → Type 0
AllOver s = (s.parent ≡ p_exit) × ((s.child ≡ c_exit) ⊎ (s.child ≡ c_killed))

abbrev Known : State → Type 0
Known s = Sound s × Told s

both :
    (P Q : State → Type 0) (o : Option State) → IfSome P o → IfSome Q o → IfSome (λ s. P s × Q s) o
both P Q none p q = tt
both P Q (some s) p q = (p, q)

module _ (s : State) (h : Known s) where
  abbrev GoOn : Type 0
  GoOn = GoesOn next AnyMove AllOver work s

  told_at :
      (c : ChildPc)
      → s.parent ≡ p_exit
      → s.child ≡ c
      → count (lives c) ≤ count s.hup_pending + count s.fin
  told_at c e k =
      subst (λ c. count (lives c) ≤ count s.hup_pending + count s.fin) k (ground (arith, e, h.1))

  go_child : (c : ChildPc) → s.parent ≡ p_exit → s.child ≡ c → GoOn
  unfolding next
  go_child c_none e k = absurd (subst (λ pc. IsBegun pc s.child) e h.0.begun k)
  go_child c_set_int e k = inr (child_step, tt, ground (arith, k))
  go_child c_set_hup e k = inr (child_step, tt, ground (arith, k))
  go_child c_test e k = elim (Bool-cases s.fin) [
    | inl fin ↦ inr (child_step, tt, ground (arith, k, fin))
    | inr waits ↦ inr (
      hup_arrives,
      tt,
      ground (
        arith,
        k,
        waits,
        told_at c_test e k,
        (subst (λ c. HandlersAt c s.int_set s.hup_set) k h.0.is_set),
      ),
    )
  ]
  go_child c_print e k = inr (child_step, tt, ground (arith, k))
  go_child c_exit e k = inl (e, inl k)
  go_child c_killed e k = inl (e, inr k)

  go_parent : (pc : ParentPc) → s.parent ≡ pc → GoOn
  unfolding next
  go_parent p_fork e =
      inr (parent_step, tt, ground (arith, e, (subst (λ pc. IsBegun pc s.child) e h.0.begun)))
  go_parent (p_loop (suc left)) e = inr (parent_step, tt, ground (arith, e))
  go_parent (p_loop zero) e = inr (parent_step, tt, ground (arith, e))
  go_parent p_print e = inr (parent_step, tt, ground (arith, e))
  go_parent p_exit e = go_child s.child e refl

-- Whatever the processes have done, steps of them lead to where both have ended: the child is not left
-- waiting for SIGHUP.
pub signals_end : (s : State) → Running s → Ends next AnyMove AllOver s
signals_end s r =
    Ends-work next AnyMove AllOver Known work
      (λ m s h. both Sound Told (next m s) (next-Sound m s h.0) (next-Told m s h.1))
      (λ s h. go_parent s h s.parent refl) s
      (Reached-invariant next Known start (Running-Sound start here, omega arith)
        (λ m s h. both Sound Told (next m s) (next-Sound m s h.0) (next-Told m s h.1)) s r)
