-- ===== src/Sysv/Alone.antt =====
-- msg_0send_rcv.c: one process sends three messages to the queue and receives for ever.
use mathlib.Core.Option
use linux_app_samp.Base.{
  ltb, leb, if◌then◌else◌, ltb→lt, leb→le, Bool-cases, length, length-append, append_assoc,
  append_nil, Bytes, overlay, length-overlay, codes, c_str, IsText, c_str-overlay_zero, dec, ℕ, ◌+◌,
  ◌≤◌, ◌<◌, ◌≡◌, refl, sym, ap, ◌∙◌, inl, inr, Option, none, some, List, [], ◌∷◌, ◌++◌, map, arith,
}
use linux_app_samp.Sysv.Threads.{Message, message}

-- Where the process stays for ever, with the lines that it has printed; or `%s` has read over the end
-- of `m_data`.
pub data Stay : Type 0 where
  in_msgsnd : Stay
  in_msgrcv : (lines : List Bytes) → Stay
  overrun : Stay

abbrev pub texts : List Bytes
texts = codes "test1" ∷ codes "test2" ∷ codes "test3" ∷ []

-- The three sends: the queue after them, or none if one of them waits for room. `m_data` keeps what the
-- text before left behind the zero.
unfoldable pub send_texts :
    (cap pid : ℕ) → (m_data : Bytes) → List Bytes → List Message → Option (List Message)
send_texts cap pid m_data [] queue = some queue
send_texts cap pid m_data (t ∷ ts) queue =
    let m = message pid m_data t in
    let rest = send_texts cap pid m.m_data ts (queue ++ m ∷ []) in
    if ltb (length queue) cap then rest else none

-- "message %d %s\n"
abbrev pub line : ℕ → Bytes → Bytes
line m_type text = codes "message " ++ (dec m_type ++ (32 ∷ (text ++ 10 ∷ [])))

abbrev pub show : Option Bytes → ℕ → Option (List Bytes) → Option (List Bytes)
show none m_type lines = none
show (some text) m_type lines = Option.map (λ ls. line m_type text ∷ ls) lines

-- The loop that receives, until it waits.
unfoldable pub receive_all : List Message → Option (List Bytes)
receive_all [] = some []
receive_all (m ∷ ms) = show (c_str m.m_data) m.m_type (receive_all ms)

abbrev pub receive_stay : Option (List Bytes) → Stay
receive_stay none = overrun
receive_stay (some lines) = in_msgrcv lines

abbrev pub after_send : Option (List Message) → Stay
after_send none = in_msgsnd
after_send (some queue) = receive_stay (receive_all queue)

unfoldable pub main_alone : (cap pid : ℕ) → (m_data : Bytes) → List Message → Stay
unfolding send_texts receive_all
main_alone cap pid m_data old = after_send (send_texts cap pid m_data texts old)

-- Messages with a text each.
abbrev pub Texts : List Message → List Bytes → Type 0
Texts [] [] = Unit
Texts (m ∷ ms) (t ∷ ts) = (c_str m.m_data ≡ some t) × Texts ms ts
Texts _ _ = ⊥

-- The lines of messages with these texts.
abbrev pub lines_of : List Message → List Bytes → List Bytes
lines_of [] ts = []
lines_of (m ∷ ms) [] = []
lines_of (m ∷ ms) (t ∷ ts) = line m.m_type t ∷ lines_of ms ts

receive_all-Texts :
    (ms more : List Message) (ts lines : List Bytes)
    → Texts ms ts
    → receive_all more ≡ some lines
    → receive_all (ms ++ more) ≡ some (lines_of ms ts ++ lines)
unfolding receive_all
receive_all-Texts [] more [] lines h e = e
receive_all-Texts [] more (t ∷ ts) lines h e = absurd h
receive_all-Texts (m ∷ ms) more [] lines h e = absurd h
receive_all-Texts (m ∷ ms) more (t ∷ ts) lines h e =
    rw (h.0, receive_all-Texts ms more ts lines h.1 e)

-- The messages of texts.
abbrev pub sent_all : ℕ → Bytes → List Bytes → List Message
sent_all pid m_data [] = []
sent_all pid m_data (t ∷ ts) = let m = message pid m_data t in m ∷ sent_all pid m.m_data ts

send_texts-room :
    (cap pid : ℕ) (m_data : Bytes) (ts : List Bytes) (queue : List Message)
    → length queue + length ts ≤ cap
    → send_texts cap pid m_data ts queue ≡ some (queue ++ sent_all pid m_data ts)
unfolding send_texts
send_texts-room cap pid m_data [] queue p = rw (append_nil queue)
send_texts-room cap pid m_data (t ∷ ts) queue p =
    let m : Message = message pid m_data t in
    let rest : send_texts cap pid m.m_data ts (queue ++ m ∷ [])
        ≡ some (queue ++ m ∷ sent_all pid m.m_data ts) =
      send_texts-room cap pid m.m_data ts (queue ++ m ∷ [])
        (omega (arith, length-append queue (m ∷ [])))
      ∙ ap some (append_assoc queue (m ∷ []) (sent_all pid m.m_data ts)) in
    ground (arith, rest)

send_texts-full :
    (cap pid : ℕ) (m_data : Bytes) (ts : List Bytes) (queue : List Message)
    → length queue ≤ cap
    → cap < length queue + length ts
    → send_texts cap pid m_data ts queue ≡ none
unfolding send_texts
send_texts-full cap pid m_data [] queue q p = absurd (omega arith)
send_texts-full cap pid m_data (t ∷ ts) queue q p = elim (Bool-cases (ltb (length queue) cap)) [
  | inl room ↦
      let m : Message = message pid m_data t in
      rw room (
        send_texts-full cap pid m.m_data ts (queue ++ m ∷ [])
          (omega (arith, length-append queue (m ∷ []), ltb→lt (length queue) cap room))
          (omega (arith, length-append queue (m ∷ []))))
  | inr full ↦ rw full
]

abbrev Short : Bytes → List Bytes → Type 0
Short m_data [] = Unit
Short m_data (t ∷ ts) = IsText t × (length t < length m_data) × Short m_data ts

Short-overlay : (d d' : Bytes) (ts : List Bytes) → length d ≡ length d' → Short d ts → Short d' ts
Short-overlay d d' [] e h = tt
Short-overlay d d' (t ∷ ts) e h = (h.0, omega (arith, h.1), Short-overlay d d' ts e h.2)

receive_all-sent :
    (pid : ℕ) (m_data : Bytes) (ts : List Bytes)
    → Short m_data ts
    → receive_all (sent_all pid m_data ts) ≡ some (map (line pid) ts)
unfolding receive_all
receive_all-sent pid m_data [] h = refl
receive_all-sent pid m_data (t ∷ ts) h =
    let data' : Bytes = overlay (t ++ 0 ∷ []) m_data in
    let same : length m_data ≡ length data' = sym (length-overlay (t ++ 0 ∷ []) m_data) in
    rw (
      c_str-overlay_zero t m_data h.0 h.1,
      receive_all-sent pid data' ts (Short-overlay m_data data' ts same h.2),
    )

-- msg_0send_rcv.c on a queue that already holds messages, each a text: with room for three more it
-- prints all of them in order, those of before and then its own `test1`, `test2` and `test3`, and waits
-- in `msgrcv`; without that room it waits in `msgsnd` and prints nothing.
pub main_alone_stays :
    (cap pid : ℕ) (m_data : Bytes) (old : List Message) (ts : List Bytes)
    → length m_data ≡ 256
    → length old ≤ cap
    → Texts old ts
    → main_alone cap pid m_data old ≡ (
        if leb (length old + 3) cap
        then in_msgrcv (lines_of old ts ++ map (line pid) texts)
        else in_msgsnd)
unfolding main_alone
main_alone_stays cap pid m_data old ts size held h = elim (Bool-cases (leb (length old + 3) cap)) [
  | inl room ↦
      let p : length old + 3 ≤ cap = leb→le (length old + 3) cap room in
      let own = receive_all-sent pid m_data texts (omega arith) in
      rw room (
        ap after_send (send_texts-room cap pid m_data texts old p)
        ∙ ap receive_stay
            (receive_all-Texts old (sent_all pid m_data texts) ts (map (line pid) texts) h own))
  | inr full ↦
      rw full (ap after_send (send_texts-full cap pid m_data texts old held (ground arith)))
]
