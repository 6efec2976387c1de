-- ===== src/Panel/Plain.antt =====
-- gpio_ledTask_swTask.c: the same `ledTask` and `swTask`, byte for byte, without the thread that prints the
-- time.
use linux_app_samp.Base.{codes, ◌≡◌, refl, sym, ap, ◌∙◌, false, List, [], ◌∷◌, map}
use linux_app_samp.Os.{Os, Log, printed}
use linux_app_samp.Panel.DateTime.{Tm}
use linux_app_samp.Panel.Tasks.{
  Thread, led_thread, sw_thread, Panel, boot, led_step, sw_step, step, run,
}
use linux_app_samp.Panel.Windows.{presses, toggled}
use linux_app_samp.Panel.Flag.{flag-presses}

pub data PlainThread : Type 0 where
  plain_led plain_sw : PlainThread

-- `main` prints its two lines and creates the threads.
abbrev pub plain_boot : Log → Panel
plain_boot h =
    boot (printed (codes "Hello world V0.2\n") ∷ printed (codes "----------------------\n") ∷ h)

module _ (os : Os) where
  unfoldable pub plain_step : Panel → PlainThread → Panel
  unfolding led_step sw_step
  plain_step p plain_led =
      let (pc, h) = led_step os p.led p.bf_start p.log in record p { led = pc; log = h }
  plain_step p plain_sw = sw_step os p.sw p

  -- The threads run in the order that the scheduler chooses.
  unfoldable pub plain_run : Panel → List PlainThread → Panel
  unfolding plain_step
  plain_run p [] = p
  plain_run p (t ∷ ts) = plain_run (plain_step p t) ts

abbrev pub as_thread : PlainThread → Thread
as_thread plain_led = led_thread
as_thread plain_sw = sw_thread

plain_step-step :
    (os : Os) (clock : Log → Tm) (p : Panel) (t : PlainThread)
    → plain_step os p t ≡ step os clock p (as_thread t)
unfolding plain_step step
plain_step-step os clock p plain_led = refl
plain_step-step os clock p plain_sw = refl

-- A run of the two threads is a run of the three in which the third takes no step, whatever the clock.
plain_run-run :
    (os : Os) (clock : Log → Tm) (p : Panel) (ts : List PlainThread)
    → plain_run os p ts ≡ run os clock p (map as_thread ts)
unfolding plain_run run
plain_run-run os clock p [] = refl
plain_run-run os clock p (t ∷ ts) =
    ap (λ q. plain_run os q ts) (plain_step-step os clock p t)
    ∙ plain_run-run os clock (step os clock p (as_thread t)) ts

abbrev no_time : Tm
no_time = record { tm_year = 0; tm_mon = 0; tm_mday = 0; tm_hour = 0; tm_min = 0; tm_sec = 0 }

-- Whatever the system answers and in whatever order the two threads run: the flag is that of the presses
-- among the samples, one toggle for each.
pub plain_flag-presses :
    (os : Os) (h : Log) (ts : List PlainThread)
    → let p = plain_run os (plain_boot h) ts in p.bf_start ≡ toggled (presses p.seen) false
plain_flag-presses os h ts =
    let clock : Log → Tm = λ l. no_time in
    let lines : Log =
      printed (codes "Hello world V0.2\n") ∷ printed (codes "----------------------\n") ∷ h in
    let same : plain_run os (plain_boot h) ts ≡ run os clock (boot lines) (map as_thread ts) =
      plain_run-run os clock (boot lines) ts in
    ap (λ (p : Panel). p.bf_start) same
    ∙ flag-presses os clock lines (map as_thread ts)
    ∙ ap (λ (p : Panel). toggled (presses p.seen) false) (sym same)
