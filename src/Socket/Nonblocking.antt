-- ===== src/Socket/Nonblocking.antt =====
-- socket_tcp_nonblk_client.c and socket_tcp_nonblk_server.c: a server that looks for data again and again.
use linux_app_samp.Base.{
  ltb, if◌then◌else◌, ℕ, zero, suc, ◌+◌, ◌/◌, ◌≤◌, ◌<◌, ◌≡◌, ap, ◌∙◌, false, Option, none, some,
  List, [], ◌∷◌, ◌++◌, arith,
}
use linux_app_samp.Machine.{All}

abbrev pub size_txbuf : ℕ
size_txbuf = 32768

abbrev pub loop_count : ℕ
loop_count = 1024000 / size_txbuf

abbrev pub max_size : ℕ
max_size = 50000

abbrev pub size_rcv : ℕ
size_rcv = 32768

-- The lengths of what the client gives to `send`, which sends the zero behind the text.
unfoldable pub sends : ℕ → List ℕ
sends zero = []
sends (suc loops) = (size_txbuf + 1) ∷ sends loops

-- The server after results of `recv`, with the dots that it has printed; `none` is -1.
pub data Polled : Type 0 where
  polling : (dots : ℕ) → Polled
  closed : (dots : ℕ) → Polled
  memory_error : Polled

unfoldable pub poll_loop : (dots : ℕ) → List (Option ℕ) → Polled
poll_loop dots [] = polling dots
poll_loop dots (none ∷ rs) = poll_loop (suc dots) rs
poll_loop dots (some zero ∷ rs) = closed dots
poll_loop dots (some (suc n) ∷ rs) =
    let later = poll_loop dots rs in if ltb max_size (suc n) then memory_error else later

-- `recv` gives at most what it is asked for.
abbrev pub IsAnswer : Option ℕ → Type 0
IsAnswer none = Unit
IsAnswer (some n) = n ≤ size_rcv + 1

-- Nothing yet, or some data.
abbrev pub GoesOn : Option ℕ → Type 0
GoesOn none = Unit
GoesOn (some n) = (0 < n) × (n ≤ size_rcv + 1)

abbrev pub failures : List (Option ℕ) → ℕ
failures [] = 0
failures (none ∷ rs) = suc (failures rs)
failures (some n ∷ rs) = failures rs

-- The server prints a dot for each -1 and goes on, an error of the connection included, and ends when the
-- client has ended the connection; the data fit in its array.
pub polls_on :
    (dots : ℕ) (before after : List (Option ℕ))
    → All GoesOn before
    → (poll_loop dots before ≡ polling (dots + failures before))
      × (poll_loop dots (before ++ some 0 ∷ after) ≡ closed (dots + failures before))
unfolding poll_loop
polls_on dots [] after h = (ap polling (omega arith), ap closed (omega arith))
polls_on dots (none ∷ before) after h =
    let (p, q) = polls_on (suc dots) before after h.1 in
    (p ∙ ap polling (omega arith), q ∙ ap closed (omega arith))
polls_on dots (some zero ∷ before) after h = absurd (omega (arith, h.0.0))
polls_on dots (some (suc n) ∷ before) after h =
    let small : ltb max_size (suc n) ≡ false = ground (arith, h.0.1) in
    let (p, q) = polls_on dots before after h.1 in (rw small p, rw small q)
