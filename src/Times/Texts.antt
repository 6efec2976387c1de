-- ===== src/Times/Texts.antt =====
-- What can be read back from the texts.
use mathlib.Core.Path.{subst}
use linux_app_samp.Base.{
  length, get_elem?, take, drop, length-append, codes, dec, pad, value, IsDigits, length-dec,
  length-pad, ℕ, zero, suc, ◌+◌, ◌/◌, ◌^◌, ◌<◌, ◌≡◌, sym, ap, ◌∙◌, some, [], ◌∷◌, ◌++◌, arith,
}
use linux_app_samp.Panel.DateTime.{Tm, IsTm, date_time_text, length-date_time_text}
use linux_app_samp.Panel.Fields.{ShowsNumber, take-append_exact, drop-append_exact, field_here}
use linux_app_samp.Times.Programs.{now_line, disp_loop, msec_main}

-- The line of time_msecGet.c has 24 bytes and shows the milliseconds at its end, in three digits.
pub msec_round_trip :
    (tm : Tm) (tv_usec : ℕ)
    → IsTm tm
    → tv_usec < 1000000
    → (length (msec_main tm tv_usec) ≡ 24)
      × (take 19 (msec_main tm tv_usec) ≡ date_time_text tm)
      × ShowsNumber (msec_main tm tv_usec) 20 3 (tv_usec / 1000)
unfolding msec_main drop
msec_round_trip tm tv_usec h small =
    let text = date_time_text tm in
    let ms = pad 3 b'0' (dec (tv_usec / 1000)) in
    let few : tv_usec / 1000 < 10 ^ 3 = omega arith in
    let digits = length-pad 3 b'0' (dec (tv_usec / 1000)) (length-dec (tv_usec / 1000) 2 few) in
    let long = length-date_time_text tm h in
    let behind : drop 20 (text ++ (codes "." ++ (ms ++ 10 ∷ []))) ≡ ms ++ 10 ∷ [] =
      drop-append_exact text (codes "." ++ (ms ++ 10 ∷ [])) 19 1 long in
    (
      omega (
        arith,
        length-append text (codes "." ++ (ms ++ 10 ∷ [])),
        length-append ms (10 ∷ []),
        digits,
        long,
      ),
      take-append_exact text _ 19 long,
      subst (λ t. IsDigits (take 3 t) × (value (take 3 t) ≡ tv_usec / 1000)) (sym behind)
          (field_here 2 (tv_usec / 1000) (10 ∷ []) few),
    )

-- The program that shows the time prints one line for each of its readings, in their order.
pub disp_loop-lines :
    (clock : ℕ → Tm) (loops n i : ℕ)
    → i < loops
    → get_elem? (disp_loop clock loops n) i ≡ some (now_line (clock (n + i)))
unfolding disp_loop
disp_loop-lines clock zero n i p = absurd (omega arith)
disp_loop-lines clock (suc loops) n zero p = ap (λ m. some (now_line (clock m))) (omega arith)
disp_loop-lines clock (suc loops) n (suc i) p =
    disp_loop-lines clock loops (suc n) i (omega arith)
    ∙ ap (λ m. some (now_line (clock m))) (omega arith)
