-- ===== src/Times/Programs.antt =====
-- The four programs. What `time`, `gettimeofday` and `localtime` give is a parameter, and so are `mktime` and
-- the results of `settimeofday`.
use linux_app_samp.Base.{
  if◌then◌else◌, Bytes, codes, dec, pad, ℤ, ℕ, zero, suc, ◌+◌, ◌-◌, ◌/◌, Bool, List, [], ◌∷◌, ◌++◌,
}
use linux_app_samp.Panel.DateTime.{Tm, date_time_text}

-- `"now: %d-%d-%d %d:%d:%d\n"`
unfoldable pub now_line : Tm → Bytes
now_line tm =
    codes "now: "
    ++ (dec (tm.tm_year + 1900)
        ++ (codes "-"
            ++ (dec (tm.tm_mon + 1)
                ++ (codes "-"
                    ++ (dec tm.tm_mday
                        ++ (codes " "
                            ++ (dec tm.tm_hour
                                ++ (codes ":"
                                    ++ (dec tm.tm_min
                                        ++ (codes ":" ++ (dec tm.tm_sec ++ 10 ∷ [])))))))))))

-- `main` of time_get.c
unfoldable pub get_main : Tm → List Bytes
unfolding now_line
get_main tm = codes "Hellow World\n" ∷ now_line tm ∷ []

-- The loop of app_02dispTime_reboot.c, whose readings of the clock are numbered.
unfoldable pub disp_loop : (clock : ℕ → Tm) → (loops n : ℕ) → List Bytes
unfolding now_line
disp_loop clock zero n = []
disp_loop clock (suc loops) n = now_line (clock n) ∷ disp_loop clock loops (suc n)

-- `main` of app_02dispTime_reboot.c: its lines, and then it reboots.
unfoldable pub disp_main : (clock : ℕ → Tm) → List Bytes
unfolding disp_loop
disp_main clock = codes "Hellow World\n" ∷ disp_loop clock 20 0

-- `"%04d/%02d/%02d %02d:%02d:%02d.%03d\n"` in time_msecGet.c
unfoldable pub msec_main : Tm → (tv_usec : ℕ) → Bytes
unfolding date_time_text
msec_main tm tv_usec =
    date_time_text tm ++ (codes "." ++ (pad 3 b'0' (dec (tv_usec / 1000)) ++ 10 ∷ []))

-- The fields that time_set.c stores; those that it does not store, `tm_isdst` with them, are what the stack
-- holds, and `mktime` looks at that.
abbrev pub work_tm : Tm
work_tm = record {
  tm_year = 2014 - 1900;
  tm_mon = 5 - 1;
  tm_mday = 3;
  tm_hour = 12;
  tm_min = 30;
  tm_sec = 45;
}

-- `main` of time_set.c: the seconds that it sets, and what it prints.
unfoldable pub set_main :
    (mktime : (isdst : ℤ) → Tm → ℕ) → (isdst : ℤ) → (set_ok : Bool) → ℕ × List Bytes
set_main mktime isdst set_ok =
    (mktime isdst work_tm, if set_ok then [] else codes "set time : fail\n" ∷ [])
