-- ===== src/Panel/Led.antt =====
-- What the LED shows.
use linux_app_samp.Base.{
  if◌then◌else◌, list_eq, list_eq_refl, Bytes, codes, dec, pad, ℤ, ℕ, ◌≡◌, refl, ap, ◌∙◌, Bool,
  false, Option, some, List, [], ◌∷◌, arith,
}
use linux_app_samp.Base.Int.{is_neg}
use linux_app_samp.Os.{Os, Io, Log, printed}
use linux_app_samp.Os.Files.{content}
use linux_app_samp.Gpio.Paths.{in_gpio, out_gpio, export_path, gpio_path}
use linux_app_samp.Gpio.Calls.{dir_in, direction_text, edge_rising, gpio_export, gpio_set_direction}
use linux_app_samp.Gpio.Effects.{Writes, each-Writes, gpio_get_hi_low-content}
use linux_app_samp.Gpio.Descriptors.{gpio_set_value-is_neg}
use linux_app_samp.Panel.DateTime.{Tm, get_date_time_str}
use linux_app_samp.Panel.Tasks.{
  led_top, led_chosen, SwPc, sw_start, sw_exported, sw_ended, sw_top, sw_sampled, Panel, Thread,
  led_thread, sw_thread, main_thread, led_step, sw_step, main_step, step, run,
}

-- The file that the LED hangs on.
abbrev pub led_file : Bytes
led_file = gpio_path out_gpio (codes "value")

abbrev pub shown : Log → Option Bytes
shown h = content h led_file

-- A call that writes to another file leaves the LED as it is.
Writes-elsewhere :
    (call : Io ℤ) (path text : Bytes)
    → Writes call path text
    → list_eq path led_file ≡ false
    → (h : Log) → shown (call h).1 ≡ shown h
Writes-elsewhere call path text w e h = w h led_file ∙ ground arith

export-elsewhere : list_eq export_path led_file ≡ false
unfolding gpio_path pad dec
export-elsewhere = refl

direction-elsewhere : list_eq (gpio_path in_gpio (codes "direction")) led_file ≡ false
unfolding gpio_path pad dec
direction-elsewhere = refl

module _ (os : Os) (h : Log) where
  export_keeps : shown (gpio_export os in_gpio h).1 ≡ shown h
  export_keeps =
      Writes-elsewhere (gpio_export os in_gpio) export_path (dec in_gpio)
        (each-Writes os in_gpio 0 dir_in edge_rising).0 export-elsewhere h

  direction_keeps : shown (gpio_set_direction os in_gpio dir_in h).1 ≡ shown h
  direction_keeps =
      Writes-elsewhere (gpio_set_direction os in_gpio dir_in)
        (gpio_path in_gpio (codes "direction")) (direction_text dir_in)
        (each-Writes os in_gpio 0 dir_in edge_rising).1 direction-elsewhere h

sw_step-shown : (os : Os) (pc : SwPc) (p : Panel) → shown (sw_step os pc p).log ≡ shown p.log
unfolding sw_step content
sw_step-shown os sw_start p =
    ground (arith, export_keeps os (printed (codes "swTask started\n") ∷ p.log))
sw_step-shown os sw_exported p = ground (arith, direction_keeps os p.log)
sw_step-shown os sw_ended p = refl
sw_step-shown os (sw_top s) p = gpio_get_hi_low-content os in_gpio _ led_file
sw_step-shown os (sw_sampled s now) p = refl

main_step-shown :
    (os : Os) (clock : Log → Tm) (bf : Bool) (h : Log) → shown (main_step os clock bf h) ≡ shown h
unfolding main_step content get_date_time_str
main_step-shown os clock bf h = ground arith

-- A schedule in which `ledTask` does not run.
abbrev pub WithoutLed : List Thread → Type 0
WithoutLed [] = Unit
WithoutLed (led_thread ∷ ts) = ⊥
WithoutLed (sw_thread ∷ ts) = WithoutLed ts
WithoutLed (main_thread ∷ ts) = WithoutLed ts

run-shown :
    (os : Os) (clock : Log → Tm) (p : Panel) (ts : List Thread)
    → WithoutLed ts
    → shown (run os clock p ts).log ≡ shown p.log
unfolding run step
run-shown os clock p [] h = refl
run-shown os clock p (led_thread ∷ ts) h = absurd h
run-shown os clock p (sw_thread ∷ ts) h =
    run-shown os clock (step os clock p sw_thread) ts h ∙ sw_step-shown os p.sw p
run-shown os clock p (main_thread ∷ ts) h =
    run-shown os clock (step os clock p main_thread) ts h
    ∙ main_step-shown os clock p.bf_start p.log

sw_step-led : (os : Os) (pc : SwPc) (p : Panel) → (sw_step os pc p).led ≡ p.led
unfolding sw_step
sw_step-led os sw_start p = refl
sw_step-led os sw_exported p = refl
sw_step-led os sw_ended p = refl
sw_step-led os (sw_top s) p = refl
sw_step-led os (sw_sampled s now) p = refl

run-led :
    (os : Os) (clock : Log → Tm) (p : Panel) (ts : List Thread)
    → WithoutLed ts
    → (run os clock p ts).led ≡ p.led
unfolding run step
run-led os clock p [] h = refl
run-led os clock p (led_thread ∷ ts) h = absurd h
run-led os clock p (sw_thread ∷ ts) h =
    run-led os clock (step os clock p sw_thread) ts h ∙ sw_step-led os p.sw p
run-led os clock p (main_thread ∷ ts) h = run-led os clock (step os clock p main_thread) ts h

abbrev level : Bool → ℕ
level hi = if hi then 1 else 0

read_flag :
    (os : Os) (clock : Log → Tm) (p : Panel)
    → p.led ≡ led_top
    → step os clock p led_thread ≡ record p { led = led_chosen p.bf_start }
unfolding step led_step
read_flag os clock p e = rw (e, led_step)

set_led :
    (os : Os) (clock : Log → Tm) (q : Panel) (hi : Bool)
    → q.led ≡ led_chosen hi
    → shown (step os clock q led_thread).log
      ≡ (if is_neg (os.open_result q.log led_file) then shown q.log else some (dec (level hi)))
unfolding step led_step content
set_led os clock q hi e =
    rw (e, led_step)
      ((each-Writes os out_gpio (level hi) dir_in edge_rising).3 q.log led_file
        ∙ ground (arith, gpio_set_value-is_neg os out_gpio (level hi) q.log, list_eq_refl led_file))

-- A round of `ledTask`: it reads the flag, the other threads run for any time, and it sets the value.
-- If the file can be opened, the LED then shows the flag as it was read, until `ledTask` runs again,
-- whatever the other threads do meanwhile; if it cannot, the LED stays as it was.
pub led_round-shown :
    (os : Os) (clock : Log → Tm) (p : Panel) (before after : List Thread)
    → p.led ≡ led_top
    → WithoutLed before
    → WithoutLed after
    → let q = run os clock (step os clock p led_thread) before in
      let r = run os clock (step os clock q led_thread) after in
      shown r.log ≡ (
        if is_neg (os.open_result q.log led_file)
        then shown p.log
        else some (dec (if p.bf_start then 1 else 0)))
led_round-shown os clock p before after e hb ha =
    let p' : Panel = step os clock p led_thread in
    let q : Panel = run os clock p' before in
    let chosen : p' ≡ record p { led = led_chosen p.bf_start } = read_flag os clock p e in
    let still : q.led ≡ led_chosen p.bf_start =
      run-led os clock p' before hb ∙ ap (λ (s : Panel). s.led) chosen in
    let kept : shown q.log ≡ shown p.log =
      run-shown os clock p' before hb ∙ ap (λ (s : Panel). shown s.log) chosen in
    run-shown os clock (step os clock q led_thread) after ha
    ∙ set_led os clock q p.bf_start still
    ∙ ground (arith, kept)
