-- ===== src/Sysv/Order.antt =====
-- The order in which the receiver of msg_1thread_send_rcv.c gets the messages.
use mathlib.Core.Path.{subst}
use linux_app_samp.Base.{
  ltb, ltb→lt, Bool-cases, length, replicate, length-append, append_assoc, append_nil,
  append-replicate, ℕ, ◌+◌, ◌<◌, ◌≡◌, refl, sym, ap, ◌∙◌, inl, inr, Option, List, [], ◌∷◌, ◌++◌,
  arith,
}
use linux_app_samp.Machine.{IfSome, Reached-invariant}
use linux_app_samp.Sysv.Threads.{
  Message, Line, said, recv, SendPc, s_start, s_stop, s_loop, s_send, s_end, RecvPc, r_start,
  r_look, r_take, State, Move, send_step, recv_step, rounds, next_loop, msgrcv, look, send_next,
  recv_next, next, start, Running,
}

-- The messages of the lines, in the order in which they were received.
unfoldable pub received : List Line → List Message
received [] = []
received (said text ∷ ls) = received ls
received (recv m ∷ ls) = received ls ++ m ∷ []

abbrev pub sent : SendPc → ℕ
sent s_start = 0
sent (s_loop loop) = loop
sent (s_send loop) = loop
sent s_stop = rounds
sent s_end = rounds

abbrev pub IsLoop : SendPc → Type 0
IsLoop (s_loop loop) = loop < rounds
IsLoop (s_send loop) = loop < rounds
IsLoop _ = Unit

abbrev pub Seen : RecvPc → List Message → Type 0
Seen r_take q = 0 < length q
Seen _ q = Unit

sent-next_loop :
    (loop : ℕ) → loop < rounds → (sent (next_loop loop) ≡ loop + 1) × IsLoop (next_loop loop)
sent-next_loop loop h = elim (Bool-cases (ltb (loop + 1) rounds)) [
  | inl again ↦ rw again (refl, ltb→lt (loop + 1) rounds again)
  | inr over ↦ rw over (ground arith, tt)
]

-- What has been received and what waits are the messages of before and those that were sent.
pub record Sound (test1 : Message) (old : List Message) (s : State) : Type 0 where
  pub all : received s.lines ++ s.queue ≡ old ++ replicate (sent s.sender) test1
  pub loop : IsLoop s.sender
  pub seen : Seen s.receiver s.queue

module _ (cap : ℕ) (test1 : Message) (old : List Message) where
  abbrev pub Keeps : State → Option State → Type 0
  Keeps s o = Sound test1 old s → IfSome (Sound test1 old) o

  Seen-more : (pc : RecvPc) (q : List Message) (m : Message) → Seen pc (q ++ m ∷ [])
  Seen-more r_start q m = tt
  Seen-more r_look q m = tt
  Seen-more r_take q m = omega (arith, length-append q (m ∷ []))

  keep_send : (pc : SendPc) (s : State) → s.sender ≡ pc → Keeps s (send_next cap test1 pc s)
  unfolding received replicate
  keep_send s_start s e h = record {
    all = h.all ∙ ap (λ pc. old ++ replicate (sent pc) test1) e;
    loop = omega arith;
    seen = h.seen;
  }
  keep_send (s_loop loop) s e h =
      let p : loop < rounds = subst IsLoop e h.loop in
      record {
        all = h.all ∙ ap (λ pc. old ++ replicate (sent pc) test1) e;
        loop = p;
        seen = h.seen;
      }
  keep_send (s_send loop) s e h = elim (Bool-cases (ltb (length s.queue) cap)) [
    | inl room ↦
        let p : loop < rounds = subst IsLoop e h.loop in
        let (count, again) = sent-next_loop loop p in
        let all : received s.lines ++ s.queue ≡ old ++ replicate loop test1 =
          h.all ∙ ap (λ pc. old ++ replicate (sent pc) test1) e in
        let longer : received s.lines ++ (s.queue ++ test1 ∷ [])
            ≡ old ++ replicate (sent (next_loop loop)) test1 =
          sym (append_assoc (received s.lines) s.queue (test1 ∷ []))
          ∙ ap (λ l. l ++ test1 ∷ []) all
          ∙ append_assoc old (replicate loop test1) (test1 ∷ [])
          ∙ ap (λ l. old ++ l) (append-replicate loop 1 test1)
          ∙ ap (λ n. old ++ replicate n test1) (sym count) in
        rw room (record { all = longer; loop = again; seen = Seen-more s.receiver s.queue test1 })
    | inr full ↦ rw full tt
  ]
  keep_send s_stop s e h = record {
    all = h.all ∙ ap (λ pc. old ++ replicate (sent pc) test1) e;
    loop = tt;
    seen = h.seen;
  }
  keep_send s_end s e h = tt

  keep_look : (q : List Message) (s : State) → s.queue ≡ q → Keeps s (look q s)
  keep_look [] s e h = h
  keep_look (m ∷ ms) s e h = record {
    all = h.all;
    loop = h.loop;
    seen = omega (arith, ap (λ l. length l) e);
  }

  keep_take : (q : List Message) (s : State) → s.queue ≡ q → Keeps s (msgrcv q s)
  unfolding received
  keep_take [] s e h = tt
  keep_take (m ∷ ms) s e h = record {
    all =
        append_assoc (received s.lines) (m ∷ []) ms
        ∙ ap (λ q. received s.lines ++ q) (sym e)
        ∙ h.all;
    loop = h.loop;
    seen = tt;
  }

  keep_recv : (pc : RecvPc) (s : State) → s.receiver ≡ pc → Keeps s (recv_next cap test1 pc s)
  unfolding received
  keep_recv r_start s e h = record { all = h.all; loop = h.loop; seen = tt }
  keep_recv r_look s e h = keep_look s.queue s refl h
  keep_recv r_take s e h = keep_take s.queue s refl h

  pub next-Sound : (m : Move) (s : State) → Keeps s (next cap test1 m s)
  unfolding next
  next-Sound send_step s = keep_send s.sender s refl
  next-Sound recv_step s = keep_recv s.receiver s refl

  pub Running-Sound : (s : State) → Running cap test1 old s → Sound test1 old s
  unfolding received replicate
  Running-Sound =
      Reached-invariant (next cap test1) (Sound test1 old) (start cap test1 old)
        (record { all = sym (append_nil old); loop = tt; seen = tt }) next-Sound

  -- In every order in which the two threads run: the messages received, in order, and those that still
  -- wait are together those that were there before and then those sent, none lost and none twice.
  pub received_in_order :
      (s : State)
      → Running cap test1 old s
      → received s.lines ++ s.queue ≡ old ++ replicate (sent s.sender) test1
  received_in_order s r = (Running-Sound s r).all
