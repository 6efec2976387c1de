-- ===== src/Socket/Tests.antt =====
-- Runs of the clients and servers, and the theorems at concrete inputs.
use linux_app_samp.Base.{
  take, replicate, Bytes, overlay, codes, c_str, IsText, ℕ, ◌+◌, ◌≡◌, refl, true, none, some, List,
  [], ◌∷◌, ◌++◌, map, arith,
}
use linux_app_samp.Socket.Loops.{
  to_send_text, waiting, closed, rx_loop, tcp_server, udp_server, size_buf,
}
use linux_app_samp.Socket.Texts.{Piece, whole, message, first_texts}
use linux_app_samp.Socket.Nonblocking.{sends, poll_loop, polling, polls_on, failures}
use linux_app_samp.Socket.Nonblocking as Nonblocking

-- The first text came alone, the second and the third together.
abbrev pieces : List Piece
pieces = (to_send_text, []) ∷ (to_send_text, message) ∷ []

first_texts_example :
    rx_loop true (replicate size_buf 0) [] (map (λ p. some (whole p)) pieces)
    ≡ waiting (map (λ p. codes "rx: " ++ (p.0 ++ 10 ∷ [])) pieces)
unfolding replicate
first_texts_example =
    let text : IsText to_send_text = ground arith in
    first_texts true (replicate size_buf 0) [] pieces refl
      ((text, omega arith), ((text, omega arith), tt))

abbrev here : Bytes
here = codes "127.0.0.1"

-- The server prints two lines of the three texts, and then the connection ends.
together :
    tcp_server (replicate 200 0) here (map some (message ∷ (message ++ message) ∷ [] ∷ []))
    ≡ closed (
        codes "before accept\n"
        ∷ codes "after accept 127.0.0.1\n"
        ∷ codes "rx: test message\n"
        ∷ codes "rx: test message\n"
        ∷ [])
unfolding tcp_server rx_loop c_str overlay take replicate
together = refl

datagrams :
    udp_server (replicate 200 0) (some message ∷ some message ∷ none ∷ [])
    ≡ closed (codes "rx: test message\n" ∷ codes "rx: test message\n" ∷ [])
unfolding udp_server rx_loop c_str overlay take replicate
datagrams = refl

-- The client of the other pair sends a little less than its 1024000 bytes, 32769 at a time.
abbrev sum : List ℕ → ℕ
sum [] = 0
sum (n ∷ ns) = n + sum ns

all_sent : sum (sends Nonblocking.loop_count) ≡ 1015839
unfolding sends
all_sent = refl
