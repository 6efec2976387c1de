-- ===== src/Panel/Flag.antt =====
-- What holds of the flag, however the threads interleave.
use linux_app_samp.Base.{◌≡◌, refl, sym, ap, ◌∙◌, Bool, false, List, [], ◌∷◌, ◌++◌, arith}
use linux_app_samp.Os.{Os, Log}
use linux_app_samp.Panel.Debounce.{Switch, start, sample, samples}
use linux_app_samp.Panel.Windows.{presses, toggled, samples-presses}
use linux_app_samp.Panel.DateTime.{Tm}
use linux_app_samp.Panel.Tasks.{
  SwPc, sw_start, sw_exported, sw_ended, sw_top, sw_sampled, Panel, boot, Thread, led_thread,
  sw_thread, main_thread, sw_step, step, run,
}

samples-snoc :
    (xs : List Bool) (now : Bool) (s : Switch) (b : Bool)
    → samples (xs ++ now ∷ []) s b ≡ sample (samples xs s b).0 now (samples xs s b).1
unfolding samples
samples-snoc [] now s b = refl
samples-snoc (x ∷ xs) now s b = samples-snoc xs now (sample s x b).0 (sample s x b).1

-- The flag and the locals of `swTask` are those that the samples worked on give.
abbrev pub FlagInv : SwPc → List Bool → Bool → Type 0
FlagInv (sw_top s) seen bf = samples seen start false ≡ (s, bf)
FlagInv (sw_sampled s now) seen bf = samples seen start false ≡ (s, bf)
FlagInv sw_start seen bf = (seen ≡ []) × (bf ≡ false)
FlagInv sw_exported seen bf = (seen ≡ []) × (bf ≡ false)
FlagInv sw_ended seen bf = (seen ≡ []) × (bf ≡ false)

abbrev pub Inv : Panel → Type 0
Inv p = FlagInv p.sw p.seen p.bf_start

sw_step-Inv :
    (os : Os) (pc : SwPc) (p : Panel) → FlagInv pc p.seen p.bf_start → Inv (sw_step os pc p)
unfolding sw_step samples
sw_step-Inv os sw_start p h = ground arith
sw_step-Inv os sw_exported p h = ground arith
sw_step-Inv os sw_ended p h = h
sw_step-Inv os (sw_top s) p h = h
sw_step-Inv os (sw_sampled s now) p h = rw (samples-snoc p.seen now start false, h)

step-Inv : (os : Os) (clock : Log → Tm) (p : Panel) (t : Thread) → Inv p → Inv (step os clock p t)
unfolding step
step-Inv os clock p led_thread h = h
step-Inv os clock p main_thread h = h
step-Inv os clock p sw_thread h = sw_step-Inv os p.sw p h

run-Inv :
    (os : Os) (clock : Log → Tm) (p : Panel) (ts : List Thread) → Inv p → Inv (run os clock p ts)
unfolding run
run-Inv os clock p [] h = h
run-Inv os clock p (t ∷ ts) h = run-Inv os clock (step os clock p t) ts (step-Inv os clock p t h)

FlagInv-presses :
    (pc : SwPc) (seen : List Bool) (bf : Bool)
    → FlagInv pc seen bf
    → bf ≡ toggled (presses seen) false
unfolding presses toggled
FlagInv-presses (sw_top s) seen bf h =
    ap (λ (r : Switch × Bool). r.1) (sym h) ∙ samples-presses seen false
FlagInv-presses (sw_sampled s now) seen bf h =
    ap (λ (r : Switch × Bool). r.1) (sym h) ∙ samples-presses seen false
FlagInv-presses _ seen bf h = rw (h.0, h.1)

-- Whatever the system and the clock answer, and in whatever order the three threads run: the flag is
-- that of the presses among the samples that `swTask` has worked on, one toggle for each.
pub flag-presses :
    (os : Os) (clock : Log → Tm) (h : Log) (ts : List Thread)
    → let p = run os clock (boot h) ts in p.bf_start ≡ toggled (presses p.seen) false
flag-presses os clock h ts =
    let p : Panel = run os clock (boot h) ts in
    FlagInv-presses p.sw p.seen p.bf_start (run-Inv os clock (boot h) ts (refl, refl))
