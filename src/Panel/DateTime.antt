-- ===== src/Panel/DateTime.antt =====
-- `getDateTimeStr`: the local time as a text of fixed width.
use mathlib.Core.List.{append-nil}
use mathlib.Core.Path.{subst}
use linux_app_samp.Panel.Fields.{
  zero_padded, ShowsNumber, ShowsByte, length-zero_padded, field_here, byte_behind, field_skip,
}
use linux_app_samp.Base.{
  if◌then◌else◌, length, take, drop, length-append, Bytes, codes, value, IsDigits, ℕ, suc, ◌+◌, ◌^◌,
  ◌≤◌, ◌<◌, ◌≡◌, refl, sym, ap, ◌∙◌, Bool, false, [], ◌++◌, arith,
}

-- The fields of `struct tm` that are printed; `tm_year` counts from 1900 and `tm_mon` from 0.
pub record Tm : Type 0 where
  pub tm_year : ℕ
  pub tm_mon : ℕ
  pub tm_mday : ℕ
  pub tm_hour : ℕ
  pub tm_min : ℕ
  pub tm_sec : ℕ

-- `"%04d/%02d/%02d %02d:%02d:%02d"`
unfoldable pub date_time_text : Tm → Bytes
date_time_text tm =
    zero_padded 4 (tm.tm_year + 1900)
    ++ (codes "/"
        ++ (zero_padded 2 (tm.tm_mon + 1)
            ++ (codes "/"
                ++ (zero_padded 2 tm.tm_mday
                    ++ (codes " "
                        ++ (zero_padded 2 tm.tm_hour
                            ++ (codes ":"
                                ++ (zero_padded 2 tm.tm_min
                                    ++ (codes ":" ++ zero_padded 2 tm.tm_sec)))))))))

-- The result of the function and what it stores; without a destination it stores nothing. The
-- `sprintf` does not fail, so that its result is never EOF.
unfoldable pub get_date_time_str : Bool → Tm → ℕ × Bytes
get_date_time_str dest_is_null tm =
    if dest_is_null then (0, []) else (length (date_time_text tm), date_time_text tm)

-- A time that a calendar can show, up to the year 9999.
pub record IsTm (tm : Tm) : Type 0 where
  pub year : tm.tm_year + 1900 < 10000
  pub mon : tm.tm_mon < 12
  pub mday : tm.tm_mday ≤ 31
  pub hour : tm.tm_hour < 24
  pub minute : tm.tm_min < 60
  pub sec : tm.tm_sec ≤ 60

-- The text from each field on.
abbrev from_min : Tm → Bytes
from_min tm = zero_padded 2 tm.tm_min ++ (codes ":" ++ zero_padded 2 tm.tm_sec)

abbrev from_hour : Tm → Bytes
from_hour tm = zero_padded 2 tm.tm_hour ++ (codes ":" ++ from_min tm)

abbrev from_mday : Tm → Bytes
from_mday tm = zero_padded 2 tm.tm_mday ++ (codes " " ++ from_hour tm)

abbrev from_mon : Tm → Bytes
from_mon tm = zero_padded 2 (tm.tm_mon + 1) ++ (codes "/" ++ from_mday tm)

module _ (tm : Tm) (h : IsTm tm) where
  year_fits : tm.tm_year + 1900 < 10 ^ 4
  year_fits = omega (arith, h.year)

  mon_fits : tm.tm_mon + 1 < 10 ^ 2
  mon_fits = omega (arith, h.mon)

  mday_fits : tm.tm_mday < 10 ^ 2
  mday_fits = omega (arith, h.mday)

  hour_fits : tm.tm_hour < 10 ^ 2
  hour_fits = omega (arith, h.hour)

  min_fits : tm.tm_min < 10 ^ 2
  min_fits = omega (arith, h.minute)

  sec_fits : tm.tm_sec < 10 ^ 2
  sec_fits = omega (arith, h.sec)

  drop_year : (j : ℕ) → drop (4 + suc j) (date_time_text tm) ≡ drop j (from_mon tm)
  unfolding date_time_text
  drop_year j = field_skip 3 (tm.tm_year + 1900) b'/' j (from_mon tm) year_fits

  drop_mon : (j : ℕ) → drop (2 + suc j) (from_mon tm) ≡ drop j (from_mday tm)
  drop_mon j = field_skip 1 (tm.tm_mon + 1) b'/' j (from_mday tm) mon_fits

  drop_mday : (j : ℕ) → drop (2 + suc j) (from_mday tm) ≡ drop j (from_hour tm)
  drop_mday j = field_skip 1 tm.tm_mday b' ' j (from_hour tm) mday_fits

  drop_hour : (j : ℕ) → drop (2 + suc j) (from_hour tm) ≡ drop j (from_min tm)
  drop_hour j = field_skip 1 tm.tm_hour b':' j (from_min tm) hour_fits

  drop_min : (j : ℕ) → drop (2 + suc j) (from_min tm) ≡ drop j (zero_padded 2 tm.tm_sec)
  drop_min j = field_skip 1 tm.tm_min b':' j (zero_padded 2 tm.tm_sec) min_fits

  pub length-date_time_text : length (date_time_text tm) ≡ 19
  unfolding date_time_text
  length-date_time_text = omega (
    arith,
    length-append {0},
    length-zero_padded 3 (tm.tm_year + 1900) year_fits,
    length-zero_padded 1 (tm.tm_mon + 1) mon_fits,
    length-zero_padded 1 tm.tm_mday mday_fits,
    length-zero_padded 1 tm.tm_hour hour_fits,
    length-zero_padded 1 tm.tm_min min_fits,
    length-zero_padded 1 tm.tm_sec sec_fits,
  )

  field_at :
      (from k n : ℕ) (rest : Bytes)
      → drop from (date_time_text tm) ≡ zero_padded (suc k) n ++ rest
      → n < 10 ^ suc k
      → ShowsNumber (date_time_text tm) from (suc k) n
  unfolding drop
  field_at from k n rest e fits =
      subst (λ text. IsDigits (take (suc k) text) × (value (take (suc k) text) ≡ n)) (sym e)
        (field_here k n rest fits)

  -- The bytes between the fields.
  bytes_between :
      ShowsByte (date_time_text tm) 4 b'/'
      × ShowsByte (date_time_text tm) 7 b'/'
      × ShowsByte (date_time_text tm) 10 b' '
      × ShowsByte (date_time_text tm) 13 b':'
      × ShowsByte (date_time_text tm) 16 b':'
  bytes_between =
      let year = byte_behind 3 (tm.tm_year + 1900) b'/' (from_mon tm) year_fits in
      let mon = byte_behind 1 (tm.tm_mon + 1) b'/' (from_mday tm) mon_fits in
      let mday = byte_behind 1 tm.tm_mday b' ' (from_hour tm) mday_fits in
      let hour = byte_behind 1 tm.tm_hour b':' (from_min tm) hour_fits in
      let min = byte_behind 1 tm.tm_min b':' (zero_padded 2 tm.tm_sec) min_fits in
      let to_mon : drop 7 (date_time_text tm) ≡ drop 2 (from_mon tm) = drop_year 2 in
      let to_mday : drop 10 (date_time_text tm) ≡ drop 2 (from_mday tm) =
        drop_year 5 ∙ drop_mon 2 in
      let to_hour : drop 13 (date_time_text tm) ≡ drop 2 (from_hour tm) =
        drop_year 8 ∙ drop_mon 5 ∙ drop_mday 2 in
      let to_min : drop 16 (date_time_text tm) ≡ drop 2 (from_min tm) =
        drop_year 11 ∙ drop_mon 8 ∙ drop_mday 5 ∙ drop_hour 2 in
      (
        unfold date_time_text in year,
        ap (take 1) to_mon ∙ mon,
        ap (take 1) to_mday ∙ mday,
        ap (take 1) to_hour ∙ hour,
        ap (take 1) to_min ∙ min,
      )

-- For a time that a calendar can show, up to the year 9999, the text has 19 bytes, as the function
-- says: at the places of the format stand the six numbers of the time, each in decimal digits to its
-- full width, and the two `/`, the blank and the two `:` between them.
pub date_time_round_trip :
    (tm : Tm)
    → IsTm tm
    → let text = (get_date_time_str false tm).1 in
      ((get_date_time_str false tm).0 ≡ 19)
      × (length text ≡ 19)
      × ShowsNumber text 0 4 (tm.tm_year + 1900)
      × ShowsNumber text 5 2 (tm.tm_mon + 1)
      × ShowsNumber text 8 2 tm.tm_mday
      × ShowsNumber text 11 2 tm.tm_hour
      × ShowsNumber text 14 2 tm.tm_min
      × ShowsNumber text 17 2 tm.tm_sec
      × (ShowsByte text 4 b'/'
          × ShowsByte text 7 b'/'
          × ShowsByte text 10 b' '
          × ShowsByte text 13 b':'
          × ShowsByte text 16 b':')
unfolding get_date_time_str
date_time_round_trip tm h = (
  length-date_time_text tm h,
  length-date_time_text tm h,
  field_at tm h 0 3 (tm.tm_year + 1900) (codes "/" ++ from_mon tm)
      (unfold date_time_text drop in refl) (year_fits tm h),
  field_at tm h 5 1 (tm.tm_mon + 1) (codes "/" ++ from_mday tm)
      (drop_year tm h 0 ∙ unfold drop in refl) (mon_fits tm h),
  field_at tm h 8 1 tm.tm_mday (codes " " ++ from_hour tm)
      (drop_year tm h 3 ∙ drop_mon tm h 0 ∙ unfold drop in refl) (mday_fits tm h),
  field_at tm h 11 1 tm.tm_hour (codes ":" ++ from_min tm)
      (drop_year tm h 6 ∙ drop_mon tm h 3 ∙ drop_mday tm h 0 ∙ unfold drop in refl)
      (hour_fits tm h),
  field_at tm h 14 1 tm.tm_min (codes ":" ++ zero_padded 2 tm.tm_sec)
      (drop_year tm h 9
        ∙ drop_mon tm h 6
        ∙ drop_mday tm h 3
        ∙ drop_hour tm h 0
        ∙ unfold drop in refl)
      (min_fits tm h),
  field_at tm h 17 1 tm.tm_sec []
      (drop_year tm h 12
        ∙ drop_mon tm h 9
        ∙ drop_mday tm h 6
        ∙ drop_hour tm h 3
        ∙ drop_min tm h 0
        ∙ unfold drop in sym (append-nil _))
      (sec_fits tm h),
  bytes_between tm h,
)
