-- ===== src/Elapsed/Tests.antt =====
-- The two programs at concrete readings of the clock.
use linux_app_samp.Base.{
  length, Bytes, codes, dec, pad, value, IsDigits, int_text, pos, ◌+◌, ◌-◌, ◌/◌, ◌^◌, ◌<◌, ◌≡◌,
  refl, some, [], ◌∷◌, ◌++◌, arith,
}
use linux_app_samp.Base.Int.{◌+ℤ◌, ◌-ℤ◌, ◌*ℤ◌, ◌/ℤ◌}
use linux_app_samp.Elapsed.Calc.{
  Timespec, zero_nine, disp_precision, precision_line, elapsed, elapsed_text, nanosecond_main,
  elapsed_nsec, elapsed_usec, elapsed_msec, disp_elapsed, calc_main,
}
use linux_app_samp.Elapsed.Props.{IsReading, nanos, elapsed_text-exact, elapsed_units}

abbrev before : Timespec
before = record { tv_sec = pos 1400000000; tv_nsec = pos 999000000 }

abbrev after : Timespec
after = record { tv_sec = pos 1400000001; tv_nsec = pos 99123456 }

abbrev precise : Timespec
precise = record { tv_sec = pos 0; tv_nsec = pos 1 }

before-IsReading : IsReading before 1400000000 999000000
before-IsReading = record {
  sec_eq = refl;
  nsec_eq = refl;
  sec_lt = omega arith;
  nsec_lt = omega arith;
}

after-IsReading : IsReading after 1400000001 99123456
after-IsReading = record {
  sec_eq = refl;
  nsec_eq = refl;
  sec_lt = omega arith;
  nsec_lt = omega arith;
}

shown_text : elapsed_text before after ≡ codes "0.100123456"
unfolding elapsed_text elapsed int_text zero_nine dec pad ◌+ℤ◌ ◌-ℤ◌
shown_text = refl

-- A clock that is set back by 0.1 s is shown as -1.9 s.
shown_text_back :
    elapsed_text
      (record { tv_sec = pos 10; tv_nsec = pos 0 })
      (record { tv_sec = pos 9; tv_nsec = pos 900000000 })
    ≡ codes "-1.900000000"
unfolding elapsed_text elapsed int_text zero_nine dec pad ◌+ℤ◌ ◌-ℤ◌
shown_text_back = refl

nanosecond_lines :
    nanosecond_main (some precise) before after
    ≡ (codes "Precision (sec) = 0.000000001\n" ∷ codes "Epalsed (sec) = 0.100123456\n" ∷ [], pos 0)
unfolding nanosecond_main disp_precision precision_line elapsed_text elapsed int_text zero_nine dec
    pad ◌+ℤ◌ ◌-ℤ◌
nanosecond_lines = refl

calc_lines :
    (calc_main (pos 0) (some (pos 1)) (some precise) before after).0
    ≡ codes "Precision (sec) = 0.000000001\n"
      ∷ codes "multi\n"
      ∷ codes "Epalsed (nsec) = 100123456\n"
      ∷ codes "Epalsed (usec) = 100123\n"
      ∷ codes "Epalsed (msec) = 100\n"
      ∷ []
unfolding calc_main disp_elapsed disp_precision precision_line elapsed_nsec elapsed_usec
    elapsed_msec int_text zero_nine dec pad ◌+ℤ◌ ◌-ℤ◌ ◌*ℤ◌ ◌/ℤ◌
calc_lines = refl

elapsed_text-exact_example :
    (whole fraction : Bytes) × (elapsed_text before after ≡ whole ++ (codes "." ++ fraction))
    × (0 < length whole)
    × IsDigits whole
    × (length fraction ≡ 9)
    × IsDigits fraction
    × (nanos (value whole) (value fraction) + nanos 1400000000 999000000
        ≡ nanos 1400000001 99123456)
elapsed_text-exact_example =
    elapsed_text-exact before after 1400000000 999000000 1400000001 99123456 before-IsReading
      after-IsReading (omega arith)

-- The difference is 100123456 nanoseconds.
elapsed_units_example :
    let d = nanos 1400000001 99123456 - nanos 1400000000 999000000 in
    (elapsed_nsec before after ≡ pos d)
    × (elapsed_usec before after ≡ pos (d / 1000))
    × (elapsed_msec before after ≡ pos (d / 1000000))
    × (d < 2 ^ 63)
elapsed_units_example =
    elapsed_units before after 1400000000 999000000 1400000001 99123456 before-IsReading
      after-IsReading (omega arith)
