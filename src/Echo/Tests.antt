-- ===== src/Echo/Tests.antt =====
-- The servers and clients at concrete inputs.
use linux_app_samp.Base.{
  ltb, if◌then◌else◌, length, take, replicate, Bytes, get_or, overlay, codes, c_str, str_copy,
  is_prefix, contains, ◌≡◌, refl, true, none, some, [], ◌∷◌, ◌++◌, map,
}
use linux_app_samp.Transfer.Request.{remove_lf}
use linux_app_samp.Echo.Server.{
  size_buf, waiting, failed, memory_error, put_ok, tcp_round, tcp_loop, tcp_server, udp_round,
  udp_loop, udp_server,
}
use linux_app_samp.Echo.Client.{
  request, finished, tx_line, udp_show, udp_rounds, udp_client, tcp_client,
}
use linux_app_samp.Echo.Client as Client
use linux_app_samp.Echo.Replies.{Request}
use linux_app_samp.Echo.Session.{tcp_session}

abbrev junk : Bytes
junk = replicate 200 b'#'

junk-size : length junk ≡ size_buf
unfolding replicate
junk-size = refl

-- without a line feed at its end
abbrev plain : Request
plain = record { body = codes "a re"; last = b'q' }

-- One byte that is received leaves the test in front of the buffer.
one_byte :
    tcp_loop (overlay (codes "req" ++ 0 ∷ []) junk) [] [] (some (b'r' ∷ []) ∷ [])
    ≡ memory_error [] []
unfolding tcp_loop tcp_round put_ok remove_lf c_str contains is_prefix overlay take replicate
one_byte = refl

-- A datagram that is no request is ignored; an error of `recvfrom` ends the server.
udp_ends :
    udp_server junk true ((some (codes "hello" ++ 0 ∷ []), true) ∷ (none, true) ∷ []) ≡ failed [] []
unfolding udp_server udp_loop udp_round c_str contains is_prefix overlay take replicate
udp_ends = refl

-- The UDP client shows a reply without its line feed, and nothing for an error.
udp_lines :
    udp_client
      (some (codes "127.0.0.1"))
      junk
      (some (codes "req,OK\n" ++ 0 ∷ []) ∷ none ∷ some (codes "req,OK\n" ++ 0 ∷ []) ∷ [])
    ≡ finished (request ∷ request ∷ request ∷ []) (
        codes "to 127.0.0.1\n"
        ∷ tx_line
        ∷ codes "rx:req,OK\n"
        ∷ codes "---\n"
        ∷ tx_line
        ∷ codes "---\n"
        ∷ tx_line
        ∷ codes "rx:req,OK\n"
        ∷ codes "---\n"
        ∷ [])
unfolding udp_client str_copy udp_rounds udp_show remove_lf c_str overlay take replicate get_or
udp_lines = refl

-- An address of 80 bytes does not fit with its zero.
udp_overflow : udp_client (some (replicate 80 b'1')) junk [] ≡ Client.memory_error [] []
unfolding udp_client str_copy replicate
udp_overflow = refl

tcp_session_example :
    (tcp_server junk (codes "127.0.0.1") (map some (replicate 3 (codes "req\n" ++ 0 ∷ [])))
      ≡ waiting (replicate 3 (codes "req,OK\n" ++ 0 ∷ [])) (
          codes "before accept\n"
          ∷ (codes "after accept " ++ (codes "127.0.0.1" ++ 10 ∷ []))
          ∷ replicate 3 (codes "rx: req,OK\n")))
    × (tcp_client
          (some (codes "127.0.0.1"))
          junk
          (map some (replicate 3 (codes "req,OK\n" ++ 0 ∷ [])))
        ≡ (if ltb (length (codes "127.0.0.1")) 80
            then finished (replicate 3 (codes "req\n" ++ 0 ∷ [])) (
                (codes "to " ++ (codes "127.0.0.1" ++ 10 ∷ []))
                ∷ codes "tx:req\n"
                ∷ codes "rx:req,OK\n"
                ∷ codes "tx:req\n"
                ∷ codes "rx:req,OK\n"
                ∷ codes "tx:req\n"
                ∷ codes "rx:req,OK\n"
                ∷ [])
            else Client.memory_error [] []))
tcp_session_example =
    tcp_session (codes "127.0.0.1") (codes "127.0.0.1") junk junk junk-size junk-size
