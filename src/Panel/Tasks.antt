-- ===== src/Panel/Tasks.antt =====
-- The three threads of app_01timerOut.c (the first two are those of gpio_ledTask_swTask.c), each
-- as its steps. A step is one access to the shared flag or one call of a GPIO function, so that the
-- threads interleave between those.
use linux_app_samp.Base.{
  ltb, if◌then◌else◌, Bytes, codes, ℤ, pos, zero, Bool, true, false, List, [], ◌∷◌, ◌++◌,
}
use linux_app_samp.Os.{Os, Log, printed, slept}
use linux_app_samp.Gpio.Paths.{in_gpio, out_gpio}
use linux_app_samp.Gpio.Calls.{
  dir_in, dir_out, gpio_export, gpio_set_direction, gpio_set_value, gpio_get_hi_low,
}
use linux_app_samp.Panel.Debounce.{Switch, start, sample}
use linux_app_samp.Panel.DateTime.{Tm, get_date_time_str}

-- Where `ledTask` stands.
pub data LedPc : Type 0 where
  led_start led_exported led_top led_ended : LedPc
  led_chosen : (hi : Bool) → LedPc  -- the flag is read, the value not yet set

-- Where `swTask` stands; from `sw_top` on with its locals.
pub data SwPc : Type 0 where
  sw_start sw_exported sw_ended : SwPc
  sw_top : (s : Switch) → SwPc
  sw_sampled : (s : Switch) (now : Bool) → SwPc

pub data Thread : Type 0 where
  led_thread sw_thread main_thread : Thread

-- What the threads share. `seen` is read by no code: the samples that `swTask` has worked on, in
-- order.
pub record Panel : Type 0 where
  pub bf_start : Bool
  pub log : Log
  pub led : LedPc
  pub sw : SwPc
  pub seen : List Bool

-- `pthread_create` of the threads; `s_bfStart` is false.
abbrev pub boot : Log → Panel
boot h = record { bf_start = false; log = h; led = led_start; sw = sw_start; seen = [] }

-- `!= RET_OK`
abbrev pub is_ok : ℤ → Bool
is_ok (pos zero) = true
is_ok _ = false

module _ (os : Os) where
  -- `if (call != RET_OK) { printf(line); return; }`
  abbrev init_call {ℓ} : {P : Type ℓ} → ℤ × Log → Bytes → P → P → P × Log
  init_call (r, h) line good bad = if is_ok r then (good, h) else (bad, printed line ∷ h)

  unfoldable pub led_step : LedPc → Bool → Log → LedPc × Log
  led_step led_start bf h =
      init_call (gpio_export os out_gpio (printed (codes "ledTask started\n") ∷ h))
        (codes "ledTask > gpio not found\n") led_exported led_ended
  led_step led_exported bf h =
      init_call (gpio_set_direction os out_gpio dir_out h) (codes "ledTask > gpio dir set fail\n")
        led_top led_ended
  led_step led_top bf h = (led_chosen bf, h)
  led_step (led_chosen hi) bf h =
      (led_top, slept 100000 ∷ (gpio_set_value os out_gpio (if hi then 1 else 0) h).1)
  led_step led_ended bf h = (led_ended, h)

  -- The components are the place, the flag and the history; `seen` grows when a sample is worked on.
  unfoldable pub sw_step : SwPc → Panel → Panel
  sw_step sw_start p =
      let (pc, h) =
        init_call (gpio_export os in_gpio (printed (codes "swTask started\n") ∷ p.log))
          (codes "swTask > gpio not found\n") sw_exported sw_ended in
      record p { sw = pc; log = h }
  sw_step sw_exported p =
      let (pc, h) =
        init_call (gpio_set_direction os in_gpio dir_in p.log)
          (codes "swTask > gpio dir set fail\n") (sw_top start) sw_ended in
      record p { sw = pc; log = h }
  sw_step (sw_top s) p =
      let (now, h) = gpio_get_hi_low os in_gpio (slept 20000 ∷ p.log) in
      record p { sw = sw_sampled s now; log = h }
  sw_step (sw_sampled s now) p =
      let (s', bf) = sample s now p.bf_start in
      record p { sw = sw_top s'; bf_start = bf; seen = p.seen ++ now ∷ [] }
  sw_step sw_ended p = record p { sw = sw_ended }

  -- One round of `mainTask`; the clock is what `time` and `localtime` give.
  unfoldable pub main_step : (Log → Tm) → Bool → Log → Log
  main_step clock bf h =
      let (len, text) = get_date_time_str false (clock h) in
      let shown = if ltb 0 len then printed (text ++ 10 ∷ []) ∷ h else h in
      slept 1000000 ∷ (if bf then shown else h)

  unfoldable pub step : (Log → Tm) → Panel → Thread → Panel
  unfolding led_step sw_step main_step
  step clock p led_thread =
      let (pc, h) = led_step p.led p.bf_start p.log in record p { led = pc; log = h }
  step clock p sw_thread = sw_step p.sw p
  step clock p main_thread = record p { log = main_step clock p.bf_start p.log }

  -- The threads run in the order that the scheduler chooses.
  unfoldable pub run : (Log → Tm) → Panel → List Thread → Panel
  unfolding step
  run clock p [] = p
  run clock p (t ∷ ts) = run clock (step clock p t) ts
