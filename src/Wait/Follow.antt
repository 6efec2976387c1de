-- ===== src/Wait/Follow.antt =====
-- The LED of gpio_input_usleep.c.
use linux_app_samp.Base.{
  ltb, if◌then◌else◌, list_eq_refl, Bytes, codes, dec, value, ℤ, pos, negsuc, ℕ, zero, suc, ◌≡◌,
  refl, ◌∙◌, inl, inr, some, ◌∷◌, arith,
}
use linux_app_samp.Base.Int.{is_neg, pos_part}
use linux_app_samp.Os.{Os, Log, printed}
use linux_app_samp.Os.Files.{content}
use linux_app_samp.Gpio.Paths.{in_gpio, out_gpio}
use linux_app_samp.Gpio.Calls.{dir_in, edge_rising, gpio_get_value}
use linux_app_samp.Gpio.Descriptors.{gpio_get_cases, gpio_set_value-is_neg}
use linux_app_samp.Gpio.Effects.{each-Writes}
use linux_app_samp.Panel.Led.{led_file, shown}
use linux_app_samp.Wait.Programs.{follow_round, follow_loop, is_high}

gpio_get_value-shown : (os : Os) (gpio : ℕ) (h : Log) → shown (gpio_get_value os gpio h).1 ≡ shown h
gpio_get_value-shown os gpio h = elim (gpio_get_cases os gpio h) [
  | inl (n, e, value, level) ↦ rw value (unfold content in refl)
  | inr (n, byte, hi, e, value, level) ↦ rw value (unfold content in refl)
]

printed-shown : (line : Bytes) (h : Log) → shown (printed line ∷ h) ≡ shown h
unfolding content
printed-shown line h = refl

is_high-level : (ret : ℤ) → is_high ret ≡ (if ltb 0 (pos_part ret) then 1 else 0)
is_high-level (pos zero) = refl
is_high-level (pos (suc n)) = ground arith
is_high-level (negsuc n) = refl

-- After any number of rounds and one more, the LED shows what `gpio_get_value` gave in the last round,
-- `1` if that was positive and `0` if it was 0 or an error; if the file of the LED cannot be opened in
-- that round, the LED stays as it was.
pub follow_loop-shown :
    (os : Os) (rounds : ℕ) (h : Log)
    → let h' = follow_loop os rounds h in
      let (ret, read) = gpio_get_value os in_gpio (printed (codes ".") ∷ h') in
      shown (follow_loop os (suc rounds) h) ≡ (
        if is_neg (os.open_result read led_file)
        then shown h'
        else some (dec (if ltb 0 (pos_part ret) then 1 else 0)))
unfolding follow_loop follow_round content
follow_loop-shown os zero h =
    let (ret, read) = gpio_get_value os in_gpio (printed (codes ".") ∷ h) in
    let hi = is_high ret in
    (each-Writes os out_gpio hi dir_in edge_rising).3 read led_file
    ∙ ground (
      arith,
      gpio_set_value-is_neg os out_gpio hi read,
      list_eq_refl led_file,
      is_high-level ret,
      gpio_get_value-shown os in_gpio (printed (codes ".") ∷ h),
    )
follow_loop-shown os (suc rounds) h = follow_loop-shown os rounds (follow_round os h)
