-- ===== src/Queue/Shown.antt =====
-- The lines that the programs print for the messages that they receive.
use linux_app_samp.Base.{
  length, replicate, length-replicate, Bytes, codes, dec, ℕ, zero, suc, ◌+◌, ◌≡◌, refl, ap, List,
  [], ◌∷◌, ◌++◌,
}
use linux_app_samp.Queue.Mq.{World, say_text, attr_lines}
use linux_app_samp.Queue.Programs.{sent_line, show_numbered, show_num}
use linux_app_samp.Queue.Transfer.{Showing, shown_from}

-- The lines that the two programs add for a message that is shown as `text`.
abbrev pub add_numbered : Bytes → ℕ → List Bytes → List Bytes
add_numbered text loop lines = ((dec loop ++ codes ":  rcvd > ") ++ (text ++ 10 ∷ [])) ∷ lines

abbrev pub add_num : Bytes → Bytes → ℕ → List Bytes → List Bytes
add_num msg text loop lines =
    (codes "  rcvd > " ++ (text ++ 10 ∷ []))
    ∷ (codes "  num = " ++ (dec (length msg) ++ 10 ∷ []))
    ∷ lines

pub show_numbered-Showing : (msg text : Bytes) → Showing show_numbered (add_numbered text) msg text
show_numbered-Showing msg text loop buf w e =
    ap (λ o. say_text (dec loop ++ codes ":  rcvd > ") o w) e

pub show_num-Showing : (msg text : Bytes) → Showing show_num (add_num msg text) msg text
show_num-Showing msg text loop buf w e =
    ap
      (λ o.
        say_text (codes "  rcvd > ") o
          (record w { lines = (codes "  num = " ++ (dec (length msg) ++ 10 ∷ [])) ∷ w.lines }))
      e

-- What mqueue_3send_rcv_20msgs.c prints for `n` messages from the number `loop` on, over the lines before.
abbrev pub numbered_lines : Bytes → (n loop : ℕ) → List Bytes → List Bytes
numbered_lines text zero loop lines = lines
numbered_lines text (suc n) loop lines =
    numbered_lines text n (suc loop)
      (((dec loop ++ codes ":  rcvd > ") ++ (text ++ 10 ∷ [])) ∷ lines)

-- What mqueue_1send_rcv.c prints, with the number of bytes that it has received.
abbrev pub sized_lines : (size : ℕ) → Bytes → (n : ℕ) → List Bytes → List Bytes
sized_lines size text zero lines = lines
sized_lines size text (suc n) lines =
    sized_lines size text n (
      (codes "  rcvd > " ++ (text ++ 10 ∷ []))
      ∷ (codes "  num = " ++ (dec size ++ 10 ∷ []))
      ∷ lines)

-- What both print before that, with `m + n` messages in the queue of which `n` are their own.
abbrev pub lines_before : Bytes → (m n : ℕ) → World → List Bytes
lines_before msg m n w =
    (codes "curmsgs = " ++ (dec (m + n) ++ 10 ∷ []))
    ∷ (codes "msgsize = " ++ (dec w.mq.msgsize ++ 10 ∷ []))
    ∷ (codes "maxmsg = " ++ (dec w.mq.maxmsg ++ 10 ∷ []))
    ∷ (replicate n (codes "  sent > " ++ (msg ++ 10 ∷ [])) ++ w.lines)

pub numbered_lines-shown :
    (msg text : Bytes) (n loop : ℕ) (lines : List Bytes)
    → shown_from show_numbered (add_numbered text) msg text n loop lines
      ≡ numbered_lines text n loop lines
numbered_lines-shown msg text zero loop lines = refl
numbered_lines-shown msg text (suc n) loop lines =
    numbered_lines-shown msg text n (suc loop) (add_numbered text loop lines)

pub sized_lines-shown :
    (msg text : Bytes) (n loop : ℕ) (lines : List Bytes)
    → shown_from show_num (add_num msg text) msg text n loop lines
      ≡ sized_lines (length msg) text n lines
sized_lines-shown msg text zero loop lines = refl
sized_lines-shown msg text (suc n) loop lines =
    sized_lines-shown msg text n (suc loop) (add_num msg text loop lines)

pub lines_before-attr :
    (msg : Bytes) (m n : ℕ) (w : World)
    → attr_lines
        (record w.mq { msgs = replicate (m + n) msg })
        (replicate n (sent_line msg) ++ w.lines)
      ≡ lines_before msg m n w
lines_before-attr msg m n w = rw (length-replicate (m + n) msg)
