-- ===== src/Segment/Children.antt =====
-- The steps of the two children keep the invariant.
use mathlib.Core.Path.{subst}
use linux_app_samp.Base.{
  ltb, ltb→lt, Bool-cases, set, get_or, c_str, ℕ, suc, ◌+◌, ◌<◌, ◌≡◌, sym, inl, inr, true, false,
  Option, some, arith,
}
use linux_app_samp.Machine.{IfSome}
use linux_app_samp.Segment.Invariant.{
  source, written, IsCopied, IsWaited, IsWritten, IsPart, Sound, one-IsWaited, two-IsWaited,
  IsWritten-suc, segment-IsPart, segment_there,
}
use linux_app_samp.Segment.Processes.{
  Calls, OnePc, o_none, o_start, o_attach, o_copy, o_detach, o_exit, TwoPc, w_none, w_attach,
  w_show, w_detach, w_exit, shown, State, copy_next, one_next, two_next,
}

module _ (calls : Calls) (s : State) (h : Sound s) where
  abbrev pub Kept : Option State → Type 0
  Kept o = IfSome Sound o

  pub keep_copy : (copied : ℕ) → s.one ≡ o_copy copied → Kept (some (copy_next calls copied s))
  keep_copy copied e =
      let here : (h.k ≡ copied) × (h.k < 15) = subst (λ pc. IsCopied pc h.k) e h.copied in
      let p : copied < 15 = omega (arith, here.0, here.1) in
      let seg : IsWritten s.main (suc copied) (set s.segment copied (get_or source copied)) =
        IsWritten-suc s.main copied s.segment p
          (subst (λ k. IsWritten s.main k s.segment) here.0 h.segment_eq) in
      elim (Bool-cases (ltb (copied + 1) 15)) [
        | inl again ↦ rw again (record {
          k = suc copied;
          copied = (omega arith, omega (arith, ltb→lt (copied + 1) 15 again));
          waited =
              one-IsWaited s.main s.one (o_copy (copied + 1)) s.two (ground (arith, e))
                (λ q. ground (arith, q)) (ground (arith, e)) (omega arith) h.waited;
          segment_eq = seg;
          parts = h.parts;
        })
        | inr over ↦ rw over (record {
          k = suc copied;
          copied = ground arith;
          waited =
              one-IsWaited s.main s.one o_detach s.two (ground (arith, e)) (λ q. ground (arith, q))
                (ground (arith, e)) (omega arith) h.waited;
          segment_eq = seg;
          parts = h.parts;
        })
      ]

  pub keep_one : (pc : OnePc) → s.one ≡ pc → Kept (one_next calls pc s)
  keep_one o_none e = tt
  keep_one o_start e = record {
    k = h.k;
    copied = subst (λ pc. IsCopied pc h.k) e h.copied;
    waited =
        one-IsWaited s.main s.one o_attach s.two (ground (arith, e)) (λ q. ground (arith, q))
          (ground (arith, e)) (omega arith) h.waited;
    segment_eq = h.segment_eq;
    parts = (tt, h.parts);
  }
  keep_one o_attach e = elim (Bool-cases calls.shmat1_ok) [
    | inl good ↦ rw good (record {
      k = h.k;
      copied = (
        subst (λ pc. IsCopied pc h.k) e h.copied,
        omega (arith, subst (λ pc. IsCopied pc h.k) e h.copied),
      );
      waited =
          one-IsWaited s.main s.one (o_copy 0) s.two (ground (arith, e)) (λ q. ground (arith, q))
            (ground (arith, e)) (omega arith) h.waited;
      segment_eq = h.segment_eq;
      parts = h.parts;
    })
    | inr bad ↦ rw bad (record {
      k = h.k;
      copied = tt;
      waited =
          one-IsWaited s.main s.one (o_exit false) s.two (ground (arith, e))
            (λ q. ground (arith, q)) (ground (arith, e)) (omega arith) h.waited;
      segment_eq = h.segment_eq;
      parts = h.parts;
    })
  ]
  keep_one (o_copy copied) e = keep_copy copied e
  keep_one o_detach e = elim (Bool-cases calls.shmdt1_ok) [
    | inl good ↦ rw good (record {
      k = h.k;
      copied = subst (λ pc. IsCopied pc h.k) e h.copied;
      waited =
          one-IsWaited s.main s.one (o_exit true) s.two (ground (arith, e)) (λ q. ground (arith, q))
            (ground (arith, e)) (omega arith) h.waited;
      segment_eq = h.segment_eq;
      parts = (tt, h.parts);
    })
    | inr bad ↦ rw bad (record {
      k = h.k;
      copied = tt;
      waited =
          one-IsWaited s.main s.one (o_exit false) s.two (ground (arith, e))
            (λ q. ground (arith, q)) (ground (arith, e)) (omega arith) h.waited;
      segment_eq = h.segment_eq;
      parts = h.parts;
    })
  ]
  keep_one (o_exit success) e = tt

  pub keep_two : (pc : TwoPc) → s.two ≡ pc → Kept (two_next calls pc s)
  keep_two w_none e = tt
  keep_two w_attach e = elim (Bool-cases calls.shmat2_ok) [
    | inl good ↦ rw good (record {
      k = h.k;
      copied = h.copied;
      waited =
          two-IsWaited s.main s.one s.two w_show (ground (arith, e)) (λ q. ground (arith, q))
            (ground (arith, e)) (omega arith) h.waited;
      segment_eq = h.segment_eq;
      parts = h.parts;
    })
    | inr bad ↦ rw bad (record {
      k = h.k;
      copied = h.copied;
      waited =
          two-IsWaited s.main s.one s.two (w_exit false) (ground (arith, e))
            (λ q. ground (arith, q)) (ground (arith, e)) (omega arith) h.waited;
      segment_eq = h.segment_eq;
      parts = h.parts;
    })
  ]
  keep_two w_show e =
      let there : s.segment ≡ written h.k =
        segment_there s.main s.one h.k s.segment (subst (λ pc. IsWaited s.main s.one pc) e h.waited)
          h.segment_eq in
      let part : IsPart (shown (c_str s.segment)) =
        subst (λ g. IsPart (shown (c_str g))) (sym there) (segment-IsPart h.k) in
      record {
        k = h.k;
        copied = h.copied;
        waited =
            two-IsWaited s.main s.one s.two w_detach (ground (arith, e)) (λ q. ground (arith, q))
              (ground (arith, e)) (omega arith) h.waited;
        segment_eq = h.segment_eq;
        parts = (tt, (part, (tt, h.parts)));
      }
  keep_two w_detach e = elim (Bool-cases calls.shmdt2_ok) [
    | inl good ↦ rw good (record {
      k = h.k;
      copied = h.copied;
      waited =
          two-IsWaited s.main s.one s.two (w_exit true) (ground (arith, e)) (λ q. ground (arith, q))
            (ground (arith, e)) (omega arith) h.waited;
      segment_eq = h.segment_eq;
      parts = (tt, h.parts);
    })
    | inr bad ↦ rw bad (record {
      k = h.k;
      copied = h.copied;
      waited =
          two-IsWaited s.main s.one s.two (w_exit false) (ground (arith, e))
            (λ q. ground (arith, q)) (ground (arith, e)) (omega arith) h.waited;
      segment_eq = h.segment_eq;
      parts = h.parts;
    })
  ]
  keep_two (w_exit success) e = tt
