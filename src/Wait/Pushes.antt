-- ===== src/Wait/Pushes.antt =====
-- How often the programs say `pushed`.
use mathlib.Core.Path.{subst}
use linux_app_samp.Base.{
  leb, ◌==◌, leb→le, Bool-cases, codes, ℤ, pos, negsuc, ℕ, zero, suc, ◌+◌, ◌<◌, ◌≡◌, refl, sym, ◌∙◌,
  inl, inr, true, false, [], ◌∷◌, arith,
}
use linux_app_samp.Os.{Os, Io, Log, rdonly, opened, rewound, closed, printed, waited, sys_read}
use linux_app_samp.Gpio.Paths.{in_gpio}
use linux_app_samp.Gpio.Calls.{edge_rising, gpio_set_edge}
use linux_app_samp.Wait.Start.{set_up}
use linux_app_samp.Wait.Quiet.{pushes, gpio_set_edge-pushes, set_up-IsQuiet}
use linux_app_samp.Wait.Programs.{
  Ending, no_gpio, no_file, finished, running, switch_file, pushed_line, greeting, on_code,
  epoll_event, poll_loop, epoll_loop, poll_main, epoll_main, if_zero,
}

-- The loop ends with the third push and not before: pushes counted at its start, those to come.
abbrev pub Third : Ending → ℕ → ℕ → ℕ → Type 0
Third finished before count after = after + count ≡ before + 3
Third running before count after = after + count < before + 3
Third _ before count after = ⊥

abbrev ThirdOf : ℕ → ℕ → Ending × Log → Type 0
ThirdOf before count r = Third r.0 before count (pushes r.1)

module _ (code count : ℕ) (stop : Log → Log) (rest : ℕ → Io Ending) (h : Log) where
  on_code-other : (code == b'1') ≡ false → on_code code count stop rest h ≡ rest count h
  unfolding on_code
  on_code-other e = ground arith

  on_code-stop :
      (code == b'1') ≡ true
      → leb 3 (count + 1) ≡ true
      → on_code code count stop rest h ≡ (finished, stop (printed pushed_line ∷ h))
  unfolding on_code
  on_code-stop e k = ground arith

  on_code-more :
      (code == b'1') ≡ true
      → leb 3 (count + 1) ≡ false
      → on_code code count stop rest h ≡ rest (count + 1) (printed pushed_line ∷ h)
  unfolding on_code
  on_code-more e k = ground arith

pushes-pushed : (h : Log) → pushes (printed pushed_line ∷ h) ≡ suc (pushes h)
unfolding pushes
pushes-pushed h = refl

-- One push less to come.
Third-suc :
    (e : Ending) (before count after : ℕ)
    → Third e (suc before) (count + 1) after
    → Third e before count after
Third-suc finished before count after h = omega arith
Third-suc running before count after h = omega arith
Third-suc no_gpio before count after h = h
Third-suc no_file before count after h = h

on_code-third :
    (code count : ℕ) (stop : Log → Log) (rest : ℕ → Io Ending) (h : Log)
    → ((h' : Log) → pushes (stop h') ≡ pushes h')
    → ((count' : ℕ) (h' : Log) → count' < 3 → ThirdOf (pushes h') count' (rest count' h'))
    → count < 3
    → ThirdOf (pushes h) count (on_code code count stop rest h)
on_code-third code count stop rest h quiet later p = elim (Bool-cases (code == b'1')) [
  | inr other ↦
      subst (ThirdOf (pushes h) count) (sym (on_code-other code count stop rest h other))
        (later count h p)
  | inl one ↦ elim (Bool-cases (leb 3 (count + 1))) [
    | inl third ↦
        subst (ThirdOf (pushes h) count) (sym (on_code-stop code count stop rest h one third)) (
          omega
            (arith, quiet (printed pushed_line ∷ h), pushes-pushed h, leb→le 3 (count + 1) third))
    | inr more ↦
        let h' : Log = printed pushed_line ∷ h in
        let r : Ending × Log = rest (count + 1) h' in
        subst (ThirdOf (pushes h) count) (sym (on_code-more code count stop rest h one more)) (
          Third-suc r.0 (pushes h) count (pushes r.1) (
            subst (λ n. ThirdOf n (count + 1) r) (pushes-pushed h)
              (later (count + 1) h' (ground arith))))
  ]
]

poll_loop-third :
    (os : Os) (rounds : ℕ) (fd : ℤ) (code count : ℕ) (h : Log)
    → count < 3
    → ThirdOf (pushes h) count (poll_loop os rounds fd code count h)
unfolding poll_loop pushes
poll_loop-third os zero fd code count h p = omega arith
poll_loop-third os (suc rounds) fd code count h p =
    let (code', h') = sys_read os fd code (rewound fd ∷ waited (os.wait_result h) ∷ h) in
    on_code-third code' count (λ h. closed fd ∷ h) (poll_loop os rounds fd code') h' (λ h'. refl)
      (λ count' h' q. poll_loop-third os rounds fd code' count' h' q) p

epoll_event-third :
    (ret : ℤ) (count : ℕ) (again ready : Io Ending) (h : Log)
    → ((h' : Log) → ThirdOf (pushes h') count (again h'))
    → ThirdOf (pushes h) count (ready h)
    → ThirdOf (pushes h) count (epoll_event ret again ready h)
unfolding epoll_event pushes
epoll_event-third (pos zero) count again ready h p q = p h
epoll_event-third (pos (suc n)) count again ready h p q = q
epoll_event-third (negsuc e) count again ready h p q = p (printed (codes "ret is nonzero\n") ∷ h)

epoll_loop-third :
    (os : Os) (rounds : ℕ) (epfd iofd : ℤ) (code count : ℕ) (h : Log)
    → count < 3
    → ThirdOf (pushes h) count (epoll_loop os rounds epfd iofd code count h)
unfolding epoll_loop pushes
epoll_loop-third os zero epfd iofd code count h p = omega arith
epoll_loop-third os (suc rounds) epfd iofd code count h p =
    let ret : ℤ = os.wait_result h in
    let (code', h') = sys_read os iofd code (rewound iofd ∷ waited ret ∷ h) in
    epoll_event-third ret count (epoll_loop os rounds epfd iofd code count) _ (waited ret ∷ h)
      (λ h'. epoll_loop-third os rounds epfd iofd code count h' p)
      (on_code-third code' count (λ h. closed iofd ∷ closed epfd ∷ h)
        (epoll_loop os rounds epfd iofd code') h' (λ h'. refl)
        (λ count' h' q. epoll_loop-third os rounds epfd iofd code' count' h' q) p)

-- The third push, counted over a whole run.
abbrev pub PushesOf : Ending → ℕ → Type 0
PushesOf finished n = n ≡ 3
PushesOf running n = n < 3
PushesOf _ n = n ≡ 0

Third-PushesOf : (e : Ending) (n : ℕ) → Third e 0 0 n → PushesOf e n
Third-PushesOf finished n h = omega arith
Third-PushesOf running n h = omega arith
Third-PushesOf no_gpio n h = absurd h
Third-PushesOf no_file n h = absurd h

if_zero-PushesOf :
    (iofd : ℤ) (failed good : Ending × Log)
    → PushesOf failed.0 (pushes failed.1)
    → PushesOf good.0 (pushes good.1)
    → PushesOf (if_zero iofd failed good).0 (pushes (if_zero iofd failed good).1)
unfolding if_zero
if_zero-PushesOf (pos zero) failed good p q = p
if_zero-PushesOf (pos (suc n)) failed good p q = q
if_zero-PushesOf (negsuc n) failed good p q = q

-- Whatever the system answers, and for any number of rounds: gpio_input_poll.c has said `pushed` three
-- times when it ends its loop, fewer times while it is in it, and never if the set-up failed.
pub poll_main-pushes :
    (os : Os) (rounds : ℕ) → let (ending, h) = poll_main os rounds [] in PushesOf ending (pushes h)
unfolding poll_main pushes
poll_main-pushes os rounds =
    let (ready, h1) = set_up os (greeting (codes "V0.1") []) in
    let h2 = (gpio_set_edge os in_gpio edge_rising h1).1 in
    let fd = os.open_result h2 switch_file in
    let h3 = opened switch_file rdonly fd ∷ h2 in
    let (code, h4) = sys_read os fd (os.stack_byte h3) h3 in
    let r = poll_loop os rounds fd code 0 h4 in
    let none_yet : pushes h1 ≡ 0 = set_up-IsQuiet os (greeting (codes "V0.1") []) in
    let quiet : pushes h4 ≡ 0 = gpio_set_edge-pushes os in_gpio h1 edge_rising ∙ none_yet in
    elim (Bool-cases ready) [
      | inl good ↦ rw good (
          Third-PushesOf r.0 (pushes r.1) (
            subst (λ n. ThirdOf n 0 r) quiet
              (poll_loop-third os rounds fd code 0 h4 (omega arith))))
      | inr bad ↦ rw bad none_yet
    ]

-- Whatever the system answers, errors of `epoll_wait` included, whatever descriptor `epoll_create`
-- gives, and for any number of rounds: gpio_input_epoll.c has said `pushed` three times when it ends its
-- loop, fewer times while it is in it, and never if the set-up failed or it has said `open fd fail`.
pub epoll_main-pushes :
    (os : Os) (rounds : ℕ) (epfd : ℤ)
    → let (ending, h) = epoll_main os rounds epfd [] in PushesOf ending (pushes h)
unfolding epoll_main pushes
epoll_main-pushes os rounds epfd =
    let (ready, h1) = set_up os [] in
    let h2 = (gpio_set_edge os in_gpio edge_rising h1).1 in
    let iofd = os.open_result h2 switch_file in
    let h3 = opened switch_file rdonly iofd ∷ h2 in
    let (code, h4) = sys_read os iofd (os.stack_byte h3) h3 in
    let r = epoll_loop os rounds epfd iofd code 0 h4 in
    let none_yet : pushes h1 ≡ 0 = set_up-IsQuiet os [] in
    let quiet : pushes h4 ≡ 0 = gpio_set_edge-pushes os in_gpio h1 edge_rising ∙ none_yet in
    let after : PushesOf r.0 (pushes r.1) = Third-PushesOf r.0 (pushes r.1) (
      subst (λ n. ThirdOf n 0 r) quiet
        (epoll_loop-third os rounds epfd iofd code 0 h4 (omega arith))) in
    elim (Bool-cases ready) [
      | inl good ↦ rw good (
          if_zero-PushesOf iofd (no_file, closed epfd ∷ printed (codes "open fd fail\n") ∷ h3) r
            quiet after)
      | inr bad ↦ rw bad none_yet
    ]

-- Whatever the system answers, errors of the waiting calls included, and for any number of rounds: each of
-- gpio_input_poll.c and gpio_input_epoll.c has said `pushed` three times when it ends its loop, fewer times
-- while it is in it, and never if the set-up failed or `open fd fail` was said.
pub three_pushes :
    (os : Os) (rounds : ℕ) (epfd : ℤ)
    → (let (ending, h) = poll_main os rounds [] in PushesOf ending (pushes h))
      × (let (ending, h) = epoll_main os rounds epfd [] in PushesOf ending (pushes h))
three_pushes os rounds epfd = (poll_main-pushes os rounds, epoll_main-pushes os rounds epfd)
