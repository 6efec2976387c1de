-- ===== src/Sysv/Delivery.antt =====
-- How msg_1thread_send_rcv.c gets to its last message.
use mathlib.Core.Path.{subst}
use linux_app_samp.Base.{
  ltb, Bool-cases, length, replicate, length-append, append_nil, ℕ, ◌+◌, ◌-◌, ◌*◌, ◌<◌, ◌≡◌, refl,
  sym, ap, ◌∙◌, ◌⊎◌, inl, inr, List, [], ◌∷◌, ◌++◌, arith,
}
use linux_app_samp.Machine.{Less, GoesOn, Ends, Ends-work}
use linux_app_samp.Sysv.Threads.{
  Message, SendPc, s_start, s_stop, s_loop, s_send, s_end, RecvPc, r_start, r_look, r_take, State,
  Move, send_step, recv_step, rounds, next_loop, msgrcv, look, send_next, recv_next, next, Running,
}
use linux_app_samp.Sysv.Order.{
  received_in_order, received, sent, IsLoop, Sound, next-Sound, Running-Sound,
}

abbrev send_work : SendPc → ℕ
send_work s_start = 40
send_work (s_loop loop) = 5 * (rounds - loop) + 3
send_work (s_send loop) = 5 * (rounds - loop) + 2
send_work s_stop = 1
send_work s_end = 0

abbrev recv_work : RecvPc → ℕ
recv_work r_start = 3
recv_work r_look = 2
recv_work r_take = 1

abbrev work : State → ℕ
work s = send_work s.sender + 2 * length s.queue + recv_work s.receiver

-- The sender has ended, nothing waits, and all messages have been received.
abbrev pub AllReceived : Message → List Message → State → Type 0
AllReceived test1 old s =
    (s.sender ≡ s_end) × (s.queue ≡ []) × (received s.lines ≡ old ++ replicate rounds test1)

abbrev pub AnyMove : Move → Type 0
AnyMove m = Unit

module _ (cap : ℕ) (test1 : Message) (old : List Message) (some_room : 0 < cap) where
  abbrev GoOn : State → Type 0
  GoOn s = GoesOn (next cap test1) AnyMove (AllReceived test1 old) work s

  work-next_loop :
      (loop : ℕ) → loop < rounds → send_work (next_loop loop) + 2 < send_work (s_send loop)
  work-next_loop loop h = elim (Bool-cases (ltb (loop + 1) rounds)) [
    | inl again ↦ rw again (omega arith)
    | inr over ↦ rw over (omega arith)
  ]

  -- The sender goes on, or it has ended, or it waits at a full queue.
  go_send :
      (pc : SendPc) (s : State)
      → s.sender ≡ pc
      → Sound test1 old s
      → Less work s (send_next cap test1 pc s) ⊎ ((s.sender ≡ s_end) ⊎ (0 < length s.queue))
  go_send s_start s e h = inl (let q = ap send_work e in omega arith)
  go_send (s_loop loop) s e h = inl (let q = ap send_work e in omega arith)
  go_send (s_send loop) s e h = elim (Bool-cases (ltb (length s.queue) cap)) [
    | inl room ↦
        let p : loop < rounds = subst IsLoop e h.loop in
        let q = ap send_work e in
        inl (rw room (omega (arith, work-next_loop loop p, length-append s.queue (test1 ∷ []))))
    | inr full ↦ inr (inr (ground arith))
  ]
  go_send s_stop s e h = inl (let q = ap send_work e in omega arith)
  go_send s_end s e h = inr (inl e)

  go_look :
      (q : List Message) (s : State)
      → s.queue ≡ q
      → s.receiver ≡ r_look
      → 0 < length q
      → Less work s (look q s)
  go_look [] s e f p = absurd (omega arith)
  go_look (m ∷ ms) s e f p = let q = ap recv_work f in omega arith

  go_take :
      (q : List Message) (s : State)
      → s.queue ≡ q
      → s.receiver ≡ r_take
      → 0 < length q
      → Less work s (msgrcv q s)
  go_take [] s e f p = absurd (omega arith)
  go_take (m ∷ ms) s e f p = let q = ap recv_work f in omega (arith, ap (λ l. length l) e)

  go_recv :
      (pc : RecvPc) (s : State)
      → s.receiver ≡ pc
      → 0 < length s.queue
      → Less work s (recv_next cap test1 pc s)
  go_recv r_start s e p = let q = ap recv_work e in omega arith
  go_recv r_look s e p = go_look s.queue s refl e p
  go_recv r_take s e p = go_take s.queue s refl e p

  ended_all :
      (q : List Message) (s : State) → s.queue ≡ q → s.sender ≡ s_end → Sound test1 old s → GoOn s
  unfolding next
  ended_all [] s e f h = inl (
    f,
    e,
    sym (append_nil (received s.lines))
        ∙ ap (λ l. received s.lines ++ l) (sym e)
        ∙ h.all
        ∙ ap (λ pc. old ++ replicate (sent pc) test1) f,
  )
  ended_all (m ∷ ms) s e f h =
      inr (recv_step, tt, go_recv s.receiver s refl (omega (arith, ap (λ l. length l) e)))

  go_on : (s : State) → Sound test1 old s → GoOn s
  unfolding next
  go_on s h = elim (go_send s.sender s refl h) [
    | inl less ↦ inr (send_step, tt, less)
    | inr (inl end) ↦ ended_all s.queue s refl end h
    | inr (inr waits) ↦ inr (recv_step, tt, go_recv s.receiver s refl waits)
  ]

  -- If the queue takes a message at all, then from whatever the two threads have come to, steps of them
  -- lead to where the sender has ended and the receiver has got all messages in order: those of before,
  -- then the five that were sent.
  pub Running-delivers :
      (s : State)
      → Running cap test1 old s
      → Ends (next cap test1) AnyMove (AllReceived test1 old) s
  Running-delivers s r =
      Ends-work (next cap test1) AnyMove (AllReceived test1 old) (Sound test1 old) work
        (next-Sound cap test1 old) go_on s (Running-Sound cap test1 old s r)

  -- If the queue takes a message at all: in every order of the two threads the messages received and those that
  -- still wait are together those that were there before and then those sent, in order, none lost and none
  -- twice; and steps lead on to where the sender has ended and the receiver has got all of them.
  pub queue_runs :
      (s : State)
      → Running cap test1 old s
      → (received s.lines ++ s.queue ≡ old ++ replicate (sent s.sender) test1)
        × Ends (next cap test1) AnyMove (AllReceived test1 old) s
  queue_runs s r = (received_in_order cap test1 old s r, Running-delivers s r)
