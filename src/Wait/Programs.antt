-- ===== src/Wait/Programs.antt =====
-- The four programs after the set-up. A loop that may run for ever takes the number of its rounds.
use linux_app_samp.Base.{
  leb, ◌==◌, if◌then◌else◌, Bytes, codes, ℤ, pos, negsuc, ℕ, zero, suc, ◌+◌, true, false, [], ◌∷◌,
  ◌++◌,
}
use linux_app_samp.Os.{
  Os, Io, Log, rdonly, opened, has_read, rewound, closed, printed, slept, waited, sys_read,
}
use linux_app_samp.Gpio.Paths.{in_gpio, out_gpio}
use linux_app_samp.Gpio.Calls.{edge_rising, gpio_set_edge, gpio_get_value, gpio_set_value}
use linux_app_samp.Wait.Start.{set_up}

pub data Ending : Type 0 where
  no_gpio : Ending  -- the set-up failed
  no_file : Ending  -- `open fd fail`
  finished : Ending
  running : Ending  -- still in the loop

-- "/sys/class/gpio/gpio51/value"
abbrev pub switch_file : Bytes
switch_file = codes "/sys/class/gpio/gpio51/value"

abbrev pub pushed_line : Bytes
pushed_line = codes "pushed\n"

abbrev pub greeting : Bytes → Log → Log
greeting version h =
    printed (codes "Hello world " ++ (version ++ 10 ∷ []))
    ∷ printed (codes "----------------------\n")
    ∷ h

-- `if (code == '1') { printf("pushed\n"); count++; if (count >= 3) break; }`, then what stands behind
-- the loop or the rest of it.
unfoldable pub on_code : ℕ → ℕ → (Log → Log) → (ℕ → Io Ending) → Io Ending
on_code code count stop rest h =
    let h' = printed pushed_line ∷ h in
    elim (code == b'1') [
      | true ↦ elim (leb 3 (count + 1)) [ true ↦ (finished, stop h') | false ↦ rest (count + 1) h' ]
      | false ↦ rest count h
    ]

-- What follows a result of `epoll_wait`: none, an event, an error.
unfoldable pub epoll_event : ℤ → Io Ending → Io Ending → Io Ending
epoll_event (pos zero) again ready h = again h
epoll_event (pos (suc n)) again ready h = ready h
epoll_event (negsuc e) again ready h = again (printed (codes "ret is nonzero\n") ∷ h)

-- The test of the descriptor, `iofd == 0`.
unfoldable pub if_zero : ℤ → Ending × Log → Ending × Log → Ending × Log
if_zero (pos zero) failed good = failed
if_zero (pos (suc n)) failed good = good
if_zero (negsuc n) failed good = good

-- What the LED is set to: 1 if `ret > 0`.
abbrev pub is_high : ℤ → ℕ
is_high ret = elim ret [ pos (suc n) ↦ 1 | _ ↦ 0 ]

module _ (os : Os) where
  -- `lseek` to the start and `read` of one byte: the new `code` and the history.
  abbrev reread : ℤ → ℕ → Io ℕ
  reread fd code h = sys_read os fd code (rewound fd ∷ h)

  -- The loop of gpio_input_poll.c; what `poll` returns is not looked at.
  unfoldable pub poll_loop : ℕ → ℤ → ℕ → ℕ → Io Ending
  poll_loop zero fd code count h = (running, h)
  poll_loop (suc rounds) fd code count h =
      let (code', h') = reread fd code (waited (os.wait_result h) ∷ h) in
      on_code code' count (λ h. closed fd ∷ h) (poll_loop rounds fd code') h'

  -- The loop of gpio_input_epoll.c: 0 events are ignored, an error is only printed.
  unfoldable pub epoll_loop : ℕ → ℤ → ℤ → ℕ → ℕ → Io Ending
  epoll_loop zero epfd iofd code count h = (running, h)
  epoll_loop (suc rounds) epfd iofd code count h =
      let ret = os.wait_result h in
      let again = epoll_loop rounds epfd iofd code count in
      let (code', h') = reread iofd code (waited ret ∷ h) in
      let more = epoll_loop rounds epfd iofd code' in
      epoll_event ret again (λ _. on_code code' count (λ h. closed iofd ∷ closed epfd ∷ h) more h')
        (waited ret ∷ h)

  -- `main` of gpio_input_poll.c; the descriptor is not tested.
  unfoldable pub poll_main : ℕ → Io Ending
  poll_main rounds h =
      let (ready, h1) = set_up os (greeting (codes "V0.1") h) in
      let h2 = (gpio_set_edge os in_gpio edge_rising h1).1 in
      let fd = os.open_result h2 switch_file in
      let h3 = opened switch_file rdonly fd ∷ h2 in
      let (code, h4) = sys_read os fd (os.stack_byte h3) h3 in
      if ready then poll_loop rounds fd code 0 h4 else (no_gpio, h1)

  -- `main` of gpio_input_epoll.c. `epfd` is what `epoll_create` gives. The descriptor of the file is
  -- tested against 0; `close` and a line follow.
  unfoldable pub epoll_main : ℕ → ℤ → Io Ending
  epoll_main rounds epfd h =
      let (ready, h1) = set_up os h in
      let h2 = (gpio_set_edge os in_gpio edge_rising h1).1 in
      let iofd = os.open_result h2 switch_file in
      let h3 = opened switch_file rdonly iofd ∷ h2 in
      let (code, h4) = sys_read os iofd (os.stack_byte h3) h3 in
      let waiting = epoll_loop rounds epfd iofd code 0 h4 in
      let failed = (closed epfd ∷ printed (codes "open fd fail\n") ∷ h3) in
      if ready then if_zero iofd (no_file, failed) waiting else (no_gpio, h1)

  -- `main` of gpio_input_select.c: one wait. The set holds that descriptor only, so that it is in the
  -- set of the result whenever `select` counts one. The `read` before is of up to 100 bytes, which
  -- nothing looks at; its event has the first.
  unfoldable pub select_main : Io Ending
  select_main h =
      let (ready, h1) = set_up os (greeting (codes "V0.1") h) in
      let h2 = (gpio_set_edge os in_gpio edge_rising h1).1 in
      let fd = os.open_result h2 switch_file in
      let h3 = opened switch_file rdonly fd ∷ h2 in
      let h4 = has_read fd (os.read_result h3 fd) ∷ h3 in
      let ret = os.wait_result h4 in
      let h5 = waited ret ∷ h4 in
      let h6 : Log = elim ret [ pos (suc n) ↦ printed pushed_line ∷ h5 | _ ↦ h5 ] in
      if ready then (finished, closed fd ∷ h6) else (no_gpio, h1)

  -- One round of gpio_input_usleep.c: the LED follows the switch.
  unfoldable pub follow_round : Log → Log
  follow_round h =
      let (ret, h1) = gpio_get_value os in_gpio (printed (codes ".") ∷ h) in
      slept 300000 ∷ (gpio_set_value os out_gpio (is_high ret) h1).1

  unfoldable pub follow_loop : ℕ → Log → Log
  follow_loop zero h = h
  follow_loop (suc rounds) h = follow_loop rounds (follow_round h)

  unfoldable pub follow_main : ℕ → Io Ending
  unfolding follow_loop
  follow_main rounds h =
      let (ready, h1) = set_up os (greeting (codes "V0.1") h) in
      if ready then (running, follow_loop rounds h1) else (no_gpio, h1)
