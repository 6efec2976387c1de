-- ===== src/Elapsed/Calc.antt =====
-- The two programs. The answers of `clock_getres` and of the two `clock_gettime` are parameters, as is
-- the number that `sscanf` reads; the timed functions only pass the time (their floats go nowhere).
use linux_app_samp.Base.{
  if◌then◌else◌, Bytes, codes, dec, pad, int_text, ℤ, pos, negsuc, zero, suc, Option, none, some,
  List, [], ◌∷◌, ◌++◌,
}
use linux_app_samp.Base.Int.{is_neg, ◌+ℤ◌, ◌-ℤ◌, ◌*ℤ◌, ◌/ℤ◌}

pub record Timespec : Type 0 where
  pub tv_sec : ℤ
  pub tv_nsec : ℤ

-- `%09ld`: the sign counts for the width and stands before the zeros.
unfoldable pub zero_nine : ℤ → Bytes
zero_nine (pos n) = pad 9 b'0' (dec n)
zero_nine (negsuc n) = b'-' ∷ pad 8 b'0' (dec (suc n))

-- What a program has printed, and its exit status.
abbrev pub Run : Type 0
Run = List Bytes × ℤ

unfoldable pub precision_line : Timespec → Bytes
precision_line res =
    codes "Precision (sec) = "
    ++ (int_text res.tv_sec ++ (codes "." ++ (zero_nine res.tv_nsec ++ 10 ∷ [])))

-- `disp_precision` is the same in both: its lines and its result. Without an answer `perror` writes to
-- the error output.
unfoldable pub disp_precision : Option Timespec → Run
unfolding precision_line
disp_precision none = ([], pos 1)
disp_precision (some res) = (precision_line res ∷ [], pos 0)

-- time_nanosecond.c
-- The borrow: a negative difference of the nanoseconds takes one second.
unfoldable pub elapsed : Timespec → Timespec → ℤ × ℤ
elapsed tp1 tp2 =
    let dsec = tp2.tv_sec -ℤ tp1.tv_sec in
    let dnsec = tp2.tv_nsec -ℤ tp1.tv_nsec in
    if is_neg dnsec then (dsec -ℤ pos 1, dnsec +ℤ pos 1000000000) else (dsec, dnsec)

-- the digits of the line of `disp_elapsed`: seconds, a point, nanoseconds
unfoldable pub elapsed_text : Timespec → Timespec → Bytes
elapsed_text tp1 tp2 =
    let (dsec, dnsec) = elapsed tp1 tp2 in int_text dsec ++ (codes "." ++ zero_nine dnsec)

unfoldable pub nanosecond_main : Option Timespec → Timespec → Timespec → Run
unfolding disp_precision elapsed_text
nanosecond_main none tp1 tp2 = ([], pos 1)
nanosecond_main (some res) tp1 tp2 = (
  (disp_precision (some res)).0
      ++ (codes "Epalsed (sec) = " ++ (elapsed_text tp1 tp2 ++ 10 ∷ [])) ∷ [],
  pos 0,
)

-- app_03timeOfCalc.c
unfoldable pub elapsed_nsec : Timespec → Timespec → ℤ
elapsed_nsec tp1 tp2 =
    let dsec = tp2.tv_sec -ℤ tp1.tv_sec in
    let dnsec = tp2.tv_nsec -ℤ tp1.tv_nsec in dnsec +ℤ (dsec *ℤ 1000000000)

unfoldable pub elapsed_usec : Timespec → Timespec → ℤ
elapsed_usec tp1 tp2 = elapsed_nsec tp1 tp2 /ℤ 1000

unfoldable pub elapsed_msec : Timespec → Timespec → ℤ
elapsed_msec tp1 tp2 = elapsed_nsec tp1 tp2 /ℤ 1000 /ℤ 1000

-- `switch(procNo)`: the name of the measured function.
abbrev pub proc_line : ℤ → Bytes
proc_line proc_no = elim proc_no [
  | pos zero ↦ codes "add\n"
  | pos (suc zero) ↦ codes "multi\n"
  | _ ↦ codes "div\n"
]

abbrev unit_line : Bytes → ℤ → Bytes
unit_line unit n = codes "Epalsed (" ++ (unit ++ (codes ") = " ++ (int_text n ++ 10 ∷ [])))

unfoldable pub disp_elapsed : ℤ → Timespec → Timespec → List Bytes
disp_elapsed proc_no tp1 tp2 =
    proc_line proc_no
    ∷ unit_line (codes "nsec") (elapsed_nsec tp1 tp2)
    ∷ unit_line (codes "usec") (elapsed_usec tp1 tp2)
    ∷ unit_line (codes "msec") (elapsed_msec tp1 tp2)
    ∷ []

-- `main`. `proc_no` is none without an argument, where the program says how to call it and returns
-- with no value (`stack`).
unfoldable pub calc_main : (stack : ℤ) → Option ℤ → Option Timespec → Timespec → Timespec → Run
unfolding disp_precision disp_elapsed
calc_main stack none res tp1 tp2 = (codes "[cmd] [No]\n" ∷ [], stack)
calc_main stack (some proc_no) none tp1 tp2 = ([], pos 1)
calc_main stack (some proc_no) (some res) tp1 tp2 =
    ((disp_precision (some res)).0 ++ disp_elapsed proc_no tp1 tp2, pos 0)
