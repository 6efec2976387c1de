-- ===== src/Segment/Ending.antt =====
-- The whole text, and the end of the three processes.
use mathlib.Core.Path.{subst}
use linux_app_samp.Base.{
  take, replicate, overlay, c_str, ℕ, ◌+◌, ◌-◌, ◌≡◌, refl, ap, ◌∙◌, ◌⊎◌, inl, inr, Bool, true,
  false, some, arith,
}
use linux_app_samp.Machine.{Less, GoesOn, Ends, Ends-work}
use linux_app_samp.Segment.Processes.{
  Calls, sample, MainPc, m_get, m_fork1, m_fork2, m_wait, m_remove, m_exit, OnePc, o_none, o_start,
  o_attach, o_copy, o_detach, o_exit, TwoPc, w_none, w_attach, w_show, w_detach, w_exit, State,
  Move, main_step, one_step, two_step, one_next, two_next, one_over, two_over, next, Running,
}
use linux_app_samp.Segment.Invariant.{written, IsCopied, overs, IsWaited, Sound, segment_there}
use linux_app_samp.Segment.Prefix.{next-Sound, Running-Sound}

-- If the first child has written the text before the second shows it, the segment holds all of it.
pub shown_whole :
    (calls : Calls) (s : State)
    → Running calls s
    → s.two ≡ w_show
    → (s.one ≡ o_detach) ⊎ (s.one ≡ o_exit true)
    → c_str s.segment ≡ some sample
unfolding c_str overlay take replicate
shown_whole calls s r at_show written_all =
    let h = Running-Sound calls s r in
    let k : h.k ≡ 15 = elim written_all [
      | inl e ↦ subst (λ pc. IsCopied pc h.k) e h.copied
      | inr e ↦ subst (λ pc. IsCopied pc h.k) e h.copied
    ] in
    let there : s.segment ≡ written h.k =
      segment_there s.main s.one h.k s.segment
        (subst (λ pc. IsWaited s.main s.one pc) at_show h.waited) h.segment_eq in
    ap c_str (there ∙ ap written k)

abbrev main_work : MainPc → ℕ
main_work m_get = 10
main_work m_fork1 = 9
main_work m_fork2 = 8
main_work (m_wait left) = 4 + left
main_work m_remove = 2
main_work (m_exit success) = 0

abbrev one_work : OnePc → ℕ
one_work o_none = 40
one_work o_start = 39
one_work o_attach = 38
one_work (o_copy copied) = 30 - copied
one_work o_detach = 10
one_work (o_exit success) = 0

abbrev two_work : TwoPc → ℕ
two_work w_none = 10
two_work w_attach = 3
two_work w_show = 2
two_work w_detach = 1
two_work (w_exit success) = 0

abbrev work : State → ℕ
work s = main_work s.main + one_work s.one + two_work s.two

abbrev pub AnyMove : Move → Type 0
AnyMove m = Unit

-- `main` has ended, and every child that was created before.
abbrev pub AllOver : State → Type 0
AllOver s =
    (success : Bool) × (s.main ≡ m_exit success)
    × (((s.one ≡ o_none) × (s.two ≡ w_none)) ⊎ (overs s.one s.two ≡ 2))

module _ (calls : Calls) (s : State) (h : Sound s) where
  abbrev GoOn : Type 0
  GoOn = GoesOn (next calls) AnyMove AllOver work s

  go_one :
      (pc : OnePc)
      → s.one ≡ pc
      → (Less work s (one_next calls pc s)) ⊎ ((s.one ≡ o_none) ⊎ (one_over s.one ≡ 1))
  go_one o_none e = inr (inl e)
  go_one o_start e = inl (let q = ap one_work e in omega arith)
  go_one o_attach e = inl (let q = ap one_work e in ground arith)
  go_one (o_copy copied) e = inl (
      let q = ap one_work e in
      let here = subst (λ pc. IsCopied pc h.k) e h.copied in ground (arith, here.0, here.1))
  go_one o_detach e = inl (let q = ap one_work e in ground arith)
  go_one (o_exit success) e = inr (inr (rw e))

  go_two :
      (pc : TwoPc)
      → s.two ≡ pc
      → (Less work s (two_next calls pc s)) ⊎ ((s.two ≡ w_none) ⊎ (two_over s.two ≡ 1))
  go_two w_none e = inr (inl e)
  go_two w_attach e = inl (let q = ap two_work e in ground arith)
  go_two w_show e = inl (let q = ap two_work e in omega arith)
  go_two w_detach e = inl (let q = ap two_work e in ground arith)
  go_two (w_exit success) e = inr (inr (rw e))

  -- With both children there, one of them goes on or both are over.
  go_wait : (left : ℕ) → s.main ≡ m_wait left → GoOn
  unfolding next
  go_wait left e =
      let waited = subst (λ pc. IsWaited pc s.one s.two) e h.waited in
      elim (go_one s.one refl) [
        | inl less ↦ inr (one_step, tt, less)
        | inr (inl gone) ↦ absurd (ground (arith, waited))
        | inr (inr over1) ↦ elim (go_two s.two refl) [
          | inl less ↦ inr (two_step, tt, less)
          | inr (inl gone) ↦ absurd (ground (arith, waited))
          | inr (inr over2) ↦ inr (main_step, tt, ground (arith, e, over1, over2, waited.0))
        ]
      ]

  go_main : (pc : MainPc) → s.main ≡ pc → GoOn
  unfolding next
  go_main m_get e =
      inr (main_step, tt, ground (arith, e, subst (λ pc. IsWaited pc s.one s.two) e h.waited))
  go_main m_fork1 e =
      inr (main_step, tt, ground (arith, e, subst (λ pc. IsWaited pc s.one s.two) e h.waited))
  go_main m_fork2 e =
      inr (main_step, tt, ground (arith, e, subst (λ pc. IsWaited pc s.one s.two) e h.waited))
  go_main (m_wait left) e = go_wait left e
  go_main m_remove e = inr (main_step, tt, ground (arith, e))
  go_main (m_exit true) e = inl (true, e, inr (subst (λ pc. IsWaited pc s.one s.two) e h.waited))
  go_main (m_exit false) e = inl (false, e, subst (λ pc. IsWaited pc s.one s.two) e h.waited)

-- The program cannot get stuck: whatever calls fail and whatever the processes have done, steps of them
-- lead to where `main` has ended, and both children too, unless none was created.
pub segment-Ends :
    (calls : Calls) (s : State) → Running calls s → Ends (next calls) AnyMove AllOver s
segment-Ends calls s r =
    Ends-work (next calls) AnyMove AllOver Sound work (next-Sound calls)
      (λ s h. go_main calls s h s.main refl) s (Running-Sound calls s r)

-- `main` never ends before a child that it has created.
pub main_last :
    (calls : Calls) (s : State) (success : Bool)
    → Running calls s
    → s.main ≡ m_exit success
    → ((s.one ≡ o_none) × (s.two ≡ w_none)) ⊎ (overs s.one s.two ≡ 2)
main_last calls s true r e =
    inr (subst (λ pc. IsWaited pc s.one s.two) e (Running-Sound calls s r).waited)
main_last calls s false r e =
    subst (λ pc. IsWaited pc s.one s.two) e (Running-Sound calls s r).waited
