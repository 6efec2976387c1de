-- ===== src/Elapsed/Props.antt =====
-- The printed times and the two readings of the clock.
use linux_app_samp.Base.{
  ltb, ltb→lt, Bool-cases, length, Bytes, codes, dec, pad, value, value-dec, IsDigits, IsDigits-dec,
  IsDigits-pad, value-pad_zero, dec_pos, length-dec, length-pad, int_text, ℤ, pos, negsuc, ℕ, ◌+◌,
  ◌-◌, ◌*◌, ◌/◌, ◌^◌, ◌≤◌, ◌<◌, ◌≡◌, refl, ◌⊎◌, inl, inr, ◌++◌, arith,
}
use linux_app_samp.Base.Int.{
  is_neg, ◌+ℤ◌, ◌-ℤ◌, ◌*ℤ◌, ◌/ℤ◌, int_laws, eq_of_parts, pos_part, neg_part,
}
use linux_app_samp.Elapsed.Calc.{
  Timespec, zero_nine, elapsed, elapsed_text, elapsed_nsec, elapsed_usec, elapsed_msec,
}

-- A reading of the clock: its nanoseconds are below a second, its seconds below 2 ^ 32.
pub record IsReading (tp : Timespec) (sec nsec : ℕ) : Type 0 where
  pub sec_eq : tp.tv_sec ≡ pos sec
  pub nsec_eq : tp.tv_nsec ≡ pos nsec
  pub sec_lt : sec < 2 ^ 32
  pub nsec_lt : nsec < 1000000000

abbrev pub nanos : ℕ → ℕ → ℕ
nanos sec nsec = sec * 1000000000 + nsec

-- One part of an integer is 0.
parts_zero : (a : ℤ) → (pos_part a ≡ 0) ⊎ (neg_part a ≡ 0)
parts_zero (pos n) = inr refl
parts_zero (negsuc n) = inl refl

-- The two cases of the subtraction of the nanoseconds.
module _ (tp1 tp2 : Timespec) (sec1 nsec1 sec2 nsec2 : ℕ) (r1 : IsReading tp1 sec1 nsec1)
    (r2 : IsReading tp2 sec2 nsec2) where
  elapsed-plain :
      sec1 ≤ sec2 → nsec1 ≤ nsec2 → elapsed tp1 tp2 ≡ (pos (sec2 - sec1), pos (nsec2 - nsec1))
  unfolding elapsed ◌-ℤ◌ ◌+ℤ◌
  elapsed-plain p q = rw (r1.sec_eq, r1.nsec_eq, r2.sec_eq, r2.nsec_eq) (ground arith)

  elapsed-borrow :
      sec1 < sec2
      → nsec2 < nsec1
      → elapsed tp1 tp2 ≡ (pos (sec2 - sec1 - 1), pos (1000000000 + nsec2 - nsec1))
  unfolding elapsed ◌-ℤ◌ ◌+ℤ◌
  elapsed-borrow p q =
      rw (r1.sec_eq, r1.nsec_eq, r2.sec_eq, r2.nsec_eq) (ground (arith, r1.nsec_lt))

  -- If the clock has not gone back between the two readings, what time_nanosecond.c has computed is a
  -- number of whole seconds and of nanoseconds below one second, which together are the difference.
  elapsed-exact :
      nanos sec1 nsec1 ≤ nanos sec2 nsec2
      → (s : ℕ) × (ns : ℕ) × (elapsed tp1 tp2 ≡ (pos s, pos ns))
        × (ns < 1000000000)
        × (nanos s ns + nanos sec1 nsec1 ≡ nanos sec2 nsec2)
  elapsed-exact h = elim (Bool-cases (ltb nsec2 nsec1)) [
    | inl below ↦
        let p : nsec2 < nsec1 = ltb→lt nsec2 nsec1 below in
        let q : sec1 < sec2 = omega (arith, r2.nsec_lt) in
        (
          sec2 - sec1 - 1,
          1000000000 + nsec2 - nsec1,
          elapsed-borrow q p,
          omega (arith, r1.nsec_lt),
          omega (arith, r1.nsec_lt),
        )
    | inr above ↦
        let p : nsec1 ≤ nsec2 = ground arith in
        let q : sec1 ≤ sec2 = omega (arith, r2.nsec_lt, r1.nsec_lt) in
        (sec2 - sec1, nsec2 - nsec1, elapsed-plain q p, omega (arith, r2.nsec_lt), omega arith)
  ]

  -- The number of nanoseconds that app_03timeOfCalc.c computes is the difference of the readings,
  -- also if the clock has gone back.
  elapsed_nsec-exact :
      pos_part (elapsed_nsec tp1 tp2) + nanos sec1 nsec1
      ≡ neg_part (elapsed_nsec tp1 tp2) + nanos sec2 nsec2
  unfolding elapsed_nsec ◌-ℤ◌ ◌+ℤ◌ ◌*ℤ◌
  elapsed_nsec-exact = rw (r1.sec_eq, r1.nsec_eq, r2.sec_eq, r2.nsec_eq) (ground arith)

  -- For two readings with seconds from 0 to 2 ^ 32 - 1 and nanoseconds below a second, if the clock
  -- has not gone back: the line of time_nanosecond.c shows one or more decimal digits, a point and
  -- nine decimal digits, and the seconds and nanoseconds that they stand for are together the
  -- difference of the readings in nanoseconds.
  pub elapsed_text-exact :
      nanos sec1 nsec1 ≤ nanos sec2 nsec2
      → (whole fraction : Bytes) × (elapsed_text tp1 tp2 ≡ whole ++ (codes "." ++ fraction))
        × (0 < length whole)
        × IsDigits whole
        × (length fraction ≡ 9)
        × IsDigits fraction
        × (nanos (value whole) (value fraction) + nanos sec1 nsec1 ≡ nanos sec2 nsec2)
  unfolding elapsed_text int_text zero_nine
  elapsed_text-exact h =
      let (s, ns, e, small, total) = elapsed-exact h in
      (
        dec s,
        pad 9 b'0' (dec ns),
        rw e,
        dec_pos s,
        IsDigits-dec s,
        length-pad 9 b'0' (dec ns) (length-dec ns 8 small),
        IsDigits-pad 9 ns,
        omega (arith, value-dec s, value-pad_zero 9 ns, total),
      )

  -- For two readings with seconds from 0 to 2 ^ 32 - 1 and nanoseconds below a second, if the clock
  -- has not gone back: the three numbers of app_03timeOfCalc.c are the difference in nanoseconds,
  -- microseconds and milliseconds, rounded down, and a 64-bit `long` holds them.
  pub elapsed_units :
      nanos sec1 nsec1 ≤ nanos sec2 nsec2
      → let d = nanos sec2 nsec2 - nanos sec1 nsec1 in
        (elapsed_nsec tp1 tp2 ≡ pos d)
        × (elapsed_usec tp1 tp2 ≡ pos (d / 1000))
        × (elapsed_msec tp1 tp2 ≡ pos (d / 1000000))
        × (d < 2 ^ 63)
  unfolding elapsed_usec elapsed_msec ◌/ℤ◌
  elapsed_units h =
      let e : elapsed_nsec tp1 tp2 ≡ pos (nanos sec2 nsec2 - nanos sec1 nsec1) =
        eq_of_parts (elapsed_nsec tp1 tp2) _
          (omega (arith, elapsed_nsec-exact, parts_zero (elapsed_nsec tp1 tp2))) in
      (e, rw e, rw e (ground arith), omega (arith, r2.sec_lt, r2.nsec_lt))

-- A second taken from the seconds and given to the nanoseconds.
borrow : (d n : ℤ) → n +ℤ (d *ℤ 1000000000) ≡ (n +ℤ pos 1000000000) +ℤ ((d -ℤ pos 1) *ℤ 1000000000)
borrow d n = eq_of_parts _ _ (omega int_laws)

-- The two programs compute the same difference, for any two answers of the clock: the nanoseconds of
-- app_03timeOfCalc.c are the seconds and the nanoseconds of time_nanosecond.c together.
pub elapsed-elapsed_nsec :
    (tp1 tp2 : Timespec)
    → let (dsec, dnsec) = elapsed tp1 tp2 in elapsed_nsec tp1 tp2 ≡ dnsec +ℤ (dsec *ℤ 1000000000)
unfolding elapsed elapsed_nsec
elapsed-elapsed_nsec tp1 tp2 = elim (Bool-cases (is_neg (tp2.tv_nsec -ℤ tp1.tv_nsec))) [
  | inl below ↦ rw below (borrow (tp2.tv_sec -ℤ tp1.tv_sec) (tp2.tv_nsec -ℤ tp1.tv_nsec))
  | inr above ↦ rw above
]
