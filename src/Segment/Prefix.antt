-- ===== src/Segment/Prefix.antt =====
-- What the second child can see of the text.
use mathlib.Core.Path.{subst}
use linux_app_samp.Base.{
  ltb, Bool-cases, take, replicate, overlay, ℕ, zero, suc, ◌-◌, ◌≡◌, refl, sym, inl, inr, Option,
  arith,
}
use linux_app_samp.Machine.{All, IfSome, Reached-invariant}
use linux_app_samp.Segment.Invariant.{IsCopied, overs, IsWaited, IsWritten, IsPart, overs_le, Sound}
use linux_app_samp.Segment.Processes.{
  Calls, MainPc, m_get, m_fork1, m_fork2, m_wait, m_remove, m_exit, State, Move, main_step,
  one_step, two_step, start, wait_next, main_next, next, Running,
}
use linux_app_samp.Segment.Children.{keep_one, keep_two}

module _ (calls : Calls) (s : State) (h : Sound s) where
  abbrev Kept : Option State → Type 0
  Kept o = IfSome Sound o

  keep_wait : (left : ℕ) → s.main ≡ m_wait left → Kept (wait_next calls left s)
  keep_wait zero e =
      let waited = subst (λ pc. IsWaited pc s.one s.two) e h.waited in
      record {
        k = h.k;
        copied = h.copied;
        waited = omega (arith, waited.1, overs_le s.one s.two);
        segment_eq = subst (λ pc. IsWritten pc h.k s.segment) e h.segment_eq;
        parts = h.parts;
      }
  keep_wait (suc left) e =
      let waited = subst (λ pc. IsWaited pc s.one s.two) e h.waited in
      elim (Bool-cases (ltb (1 - left) (overs s.one s.two))) [
        | inl over ↦ rw over (record {
          k = h.k;
          copied = h.copied;
          waited = (omega (arith, waited.0), ground (arith, waited.0), waited.2);
          segment_eq = subst (λ pc. IsWritten pc h.k s.segment) e h.segment_eq;
          parts = h.parts;
        })
        | inr going ↦ rw going tt
      ]

  keep_main : (pc : MainPc) → s.main ≡ pc → Kept (main_next calls pc s)
  unfolding overlay take replicate
  keep_main m_get e =
      let alone = subst (λ pc. IsWaited pc s.one s.two) e h.waited in
      elim (Bool-cases calls.shmget_ok) [
        | inl good ↦ rw good (record {
          k = 0;
          copied = subst (λ pc. IsCopied pc 0) (sym alone.0) refl;
          waited = alone;
          segment_eq = refl;
          parts = h.parts;
        })
        | inr bad ↦ rw bad (record {
          k = h.k;
          copied = h.copied;
          waited = inl alone;
          segment_eq = tt;
          parts = h.parts;
        })
      ]
  keep_main m_fork1 e =
      let alone = subst (λ pc. IsWaited pc s.one s.two) e h.waited in
      record {
        k = h.k;
        copied = subst (λ pc. IsCopied pc h.k) alone.0 h.copied;
        waited = (alone.1, rw (alone.1) refl);
        segment_eq = subst (λ pc. IsWritten pc h.k s.segment) e h.segment_eq;
        parts = h.parts;
      }
  keep_main m_fork2 e =
      let waited = subst (λ pc. IsWaited pc s.one s.two) e h.waited in
      record {
        k = h.k;
        copied = h.copied;
        waited = (omega arith, omega arith, ground (arith, waited));
        segment_eq = subst (λ pc. IsWritten pc h.k s.segment) e h.segment_eq;
        parts = h.parts;
      }
  keep_main (m_wait left) e = keep_wait left e
  keep_main m_remove e =
      let waited = subst (λ pc. IsWaited pc s.one s.two) e h.waited in
      elim (Bool-cases calls.shmctl_ok) [
        | inl good ↦ rw good (record {
          k = h.k;
          copied = h.copied;
          waited = waited;
          segment_eq = tt;
          parts = (tt, h.parts);
        })
        | inr bad ↦ rw bad (record {
          k = h.k;
          copied = h.copied;
          waited = inr waited;
          segment_eq = tt;
          parts = h.parts;
        })
      ]
  keep_main (m_exit success) e = tt

pub next-Sound : (calls : Calls) (m : Move) (s : State) → Sound s → IfSome Sound (next calls m s)
unfolding next
next-Sound calls main_step s h = keep_main calls s h s.main refl
next-Sound calls one_step s h = keep_one calls s h s.one refl
next-Sound calls two_step s h = keep_two calls s h s.two refl

pub Running-Sound : (calls : Calls) (s : State) → Running calls s → Sound s
Running-Sound calls =
    Reached-invariant (next calls) Sound start
      (record { k = 0; copied = refl; waited = (refl, refl); segment_eq = tt; parts = tt })
      (next-Sound calls)

-- Whatever calls fail and in whatever order the three processes run: what the second child shows of the
-- segment is a first part of the text, it may be nothing of it, and it never reads on behind it.
pub shown-IsPart : (calls : Calls) (s : State) → Running calls s → All IsPart s.lines
shown-IsPart calls s r = (Running-Sound calls s r).parts
