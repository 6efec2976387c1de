-- ===== src/Panel/Tests.antt =====
-- The panel at concrete inputs.
use linux_app_samp.Base.{
  if◌then◌else◌, length, codes, dec, pad, ◌≡◌, refl, Bool, true, false, some, List, [], ◌∷◌, arith,
}
use linux_app_samp.Base.Int.{is_neg}
use linux_app_samp.Os.{Log}
use linux_app_samp.Os.Sample.{sample_os, failing_os}
use linux_app_samp.Gpio.Calls.{gpio_export, write_file}
use linux_app_samp.Panel.Debounce.{start, samples}
use linux_app_samp.Panel.Windows.{presses, toggled, samples-presses}
use linux_app_samp.Panel.DateTime.{Tm, get_date_time_str, date_time_text, date_time_round_trip}
use linux_app_samp.Panel.Fields.{ShowsNumber, ShowsByte}
use linux_app_samp.Panel.Tasks.{
  Thread, led_thread, sw_thread, main_thread, Panel, boot, led_top, sw_start, step, run,
}
use linux_app_samp.Panel.Plain.{plain_sw, plain_led, plain_boot, plain_run}
use linux_app_samp.Panel.Flag.{flag-presses}
use linux_app_samp.Panel.Led.{led_file, shown, led_round-shown}

abbrev pressed : List Bool
pressed = false ∷ false ∷ true ∷ true ∷ true ∷ false ∷ false ∷ true ∷ true ∷ []

two_presses : presses pressed ≡ 2
unfolding presses
two_presses = refl

samples-presses_example : (samples pressed start true).1 ≡ toggled (presses pressed) true
samples-presses_example = samples-presses pressed true

abbrev bouncing : List Bool
bouncing = false ∷ false ∷ true ∷ false ∷ true ∷ false ∷ []

abbrev some_time : Tm
some_time = record {
  tm_year = 114;
  tm_mon = 4;
  tm_mday = 3;
  tm_hour = 12;
  tm_min = 30;
  tm_sec = 45;
}

some_time_text : date_time_text some_time ≡ codes "2014/05/03 12:30:45"
unfolding date_time_text pad dec
some_time_text = refl

date_time_round_trip_example :
    let text = (get_date_time_str false some_time).1 in
    ((get_date_time_str false some_time).0 ≡ 19)
    × (length text ≡ 19)
    × ShowsNumber text 0 4 2014
    × ShowsNumber text 5 2 5
    × ShowsNumber text 8 2 3
    × ShowsNumber text 11 2 12
    × ShowsNumber text 14 2 30
    × ShowsNumber text 17 2 45
    × (ShowsByte text 4 b'/'
        × ShowsByte text 7 b'/'
        × ShowsByte text 10 b' '
        × ShowsByte text 13 b':'
        × ShowsByte text 16 b':')
date_time_round_trip_example = date_time_round_trip some_time (omega arith)

-- The switch thread alone: nine rounds after its start on a system that reads low.
abbrev schedule : List Thread
schedule = sw_thread ∷ sw_thread ∷ sw_thread ∷ led_thread ∷ main_thread ∷ sw_thread ∷ []

flag-presses_example :
    let p = run (sample_os b'0') (λ h. some_time) (boot []) schedule in
    p.bf_start ≡ toggled (presses p.seen) false
flag-presses_example = flag-presses (sample_os b'0') (λ h. some_time) [] schedule

-- Both opens of the start-up fail: the thread ends.
switch_gone : (run failing_os (λ h. some_time) (boot []) (sw_thread ∷ [])).seen ≡ []
unfolding run
switch_gone = refl

abbrev running : Panel
running = record { bf_start = true; log = []; led = led_top; sw = sw_start; seen = [] }

led_round-shown_example :
    let os = sample_os b'0' in
    let clock = λ (h : Log). some_time in
    let q = run os clock (step os clock running led_thread) (sw_thread ∷ []) in
    let r = run os clock (step os clock q led_thread) (main_thread ∷ []) in
    shown r.log ≡ (
      if is_neg (os.open_result q.log led_file)
      then shown running.log
      else some (dec (if true then 1 else 0)))
led_round-shown_example =
    led_round-shown (sample_os b'0') (λ h. some_time) running (sw_thread ∷ []) (main_thread ∷ [])
      refl tt tt

-- The switch thread of the other program ends in the same way.
plain_switch_gone :
    (plain_run failing_os (plain_boot []) (plain_sw ∷ plain_led ∷ plain_sw ∷ [])).seen ≡ []
unfolding plain_run gpio_export write_file
plain_switch_gone = refl
