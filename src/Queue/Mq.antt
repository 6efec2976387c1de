-- ===== src/Queue/Mq.antt =====
-- A message queue with one priority, as `mq_send` and `mq_receive` see it, and what a program does with
-- it: a call may block for ever, and `%s` may read over the end of a buffer without a zero.
use linux_app_samp.Base.{
  ltb, if◌then◌else◌, length, Bytes, overlay, codes, c_str, dec, ℕ, Option, none, some, List, [],
  ◌∷◌, ◌++◌,
}

pub record Mq : Type 0 where
  pub maxmsg : ℕ
  pub msgsize : ℕ
  pub msgs : List Bytes  -- the oldest first

-- The queue and the lines printed, the newest first.
pub record World : Type 0 where
  pub mq : Mq
  pub lines : List Bytes

pub data Outcome (A : Type 0) : Type 0 where
  done : A → World → Outcome A
  blocked : Outcome A
  overrun : Outcome A

abbrev pub Act : Type 0 → Type 0
Act A = World → Outcome A

abbrev pub and_then : {A B : Type 0} → Outcome A → (A → Act B) → Outcome B
and_then (done a w) k = k a w
and_then blocked k = blocked
and_then overrun k = overrun

abbrev pub pure : {A : Type 0} → A → Act A
pure a w = done a w

infixl 5 ◌>>=◌ ◌>>◌
abbrev pub ◌>>=◌ : {A B : Type 0} → Act A → (A → Act B) → Act B
m >>= k = λ w. and_then (m w) k

abbrev pub ◌>>◌ : {B : Type 0} → Act (Unit {0}) → Act B → Act B
m >> k = m >>= λ _. k

abbrev pub say : Bytes → Act (Unit {0})
say line w = done tt (record w { lines = line ∷ w.lines })

-- `printf` of a buffer between two texts.
abbrev pub say_text : Bytes → Option Bytes → Act (Unit {0})
say_text before none w = overrun
say_text before (some text) w = say (before ++ (text ++ 10 ∷ [])) w

abbrev pub say_str : Bytes → Bytes → Act (Unit {0})
say_str before buf = say_text before (c_str buf)

-- A message that is too long is refused, which the programs do not look at; a full queue blocks.
unfoldable pub mq_send : Bytes → Act (Unit {0})
mq_send msg w =
    if ltb w.mq.msgsize (length msg)
    then done tt w
    else if ltb (length w.mq.msgs) w.mq.maxmsg
    then done tt (record w { mq = record w.mq { msgs = w.mq.msgs ++ msg ∷ [] } })
    else blocked

-- `mq_receive` takes the oldest message to the start of the buffer: its length and the buffer.
abbrev pub take_first : Bytes → List Bytes → Act (ℕ × Bytes)
take_first buf [] w = blocked
take_first buf (m ∷ ms) w =
    done (length m, overlay m buf) (record w { mq = record w.mq { msgs = ms } })

unfoldable pub mq_receive : Bytes → Act (ℕ × Bytes)
mq_receive buf w = take_first buf w.mq.msgs w

abbrev pub attr_lines : Mq → List Bytes → List Bytes
attr_lines mq lines =
    (codes "curmsgs = " ++ (dec (length mq.msgs) ++ 10 ∷ []))
    ∷ (codes "msgsize = " ++ (dec mq.msgsize ++ 10 ∷ []))
    ∷ (codes "maxmsg = " ++ (dec mq.maxmsg ++ 10 ∷ []))
    ∷ lines

-- `showAttr`, and what `s_rcv` prints first.
unfoldable pub show_attr : Act (Unit {0})
show_attr w = done tt (record w { lines = attr_lines w.mq w.lines })
