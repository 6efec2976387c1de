-- ===== src/Pipe/Lines.antt =====
-- What goes in at one end of the pipe and is printed at the other.
use mathlib.Core.Option
use linux_app_samp.Base.{
  ◌==◌, Bool-cases, length, length-append, Bytes, IsText, IsText-append, ℕ, zero, suc, ◌-◌, ◌<◌,
  ◌≡◌, refl, ap, ◌∙◌, ◌⊎◌, inl, inr, Bool, true, false, Option, none, some, List, [], ◌∷◌, ◌++◌,
  arith,
}
use linux_app_samp.Pipe.Stream.{
  size_zbuf, read_line, up_to_zero, print_on, func_read, concat, func_write,
}

up_to_zero-text : (t : Bytes) → IsText t → up_to_zero t ≡ t
up_to_zero-text [] h = refl
up_to_zero-text (x ∷ t) h = ground (arith, up_to_zero-text t h.1)

-- `fgets` with room for a byte: nothing is lost, and only at the end nothing is taken.
record Taken (room : ℕ) (stream : Bytes) : Type 0 where
  whole : (read_line room stream).0 ++ (read_line room stream).1 ≡ stream
  text : IsText (read_line room stream).0
  rest_text : IsText (read_line room stream).1
  at_end : (read_line room stream).2 ≡ true → (read_line room stream).1 ≡ []

read_line-Taken : (room : ℕ) (stream : Bytes) → IsText stream → Taken room stream
unfolding read_line
read_line-Taken zero stream h = record {
  whole = refl;
  text = tt;
  rest_text = h;
  at_end = λ e. ground (arith, e);
}
read_line-Taken (suc room) [] h = record {
  whole = refl;
  text = tt;
  rest_text = tt;
  at_end = λ e. refl;
}
read_line-Taken (suc room) (x ∷ stream) h = elim (Bool-cases (x == 10)) [
  | inl lf ↦ record {
    whole = ground (arith, lf);
    text = ground (arith, lf, h);
    rest_text = ground (arith, lf, h);
    at_end = λ e. ground (arith, lf, e);
  }
  | inr plain ↦
      let r = read_line-Taken room stream h.1 in
      record {
        whole = ground (arith, plain, r.whole);
        text = ground (arith, plain, r.text, h);
        rest_text = ground (arith, plain, r.rest_text);
        at_end = λ e. ground (arith, plain, e, r.at_end);
      }
]

-- With room for a byte, a stream that has one is shorter afterwards.
Shorter : (room : ℕ) → Bytes → Type 0
Shorter room stream = (stream ≡ []) ⊎ (length (read_line (suc room) stream).1 < length stream)

read_line-Shorter : (room : ℕ) (stream : Bytes) → IsText stream → Shorter room stream
unfolding read_line Shorter
read_line-Shorter room [] h = inl refl
read_line-Shorter room (x ∷ stream) h = elim (Bool-cases (x == 10)) [
  | inl lf ↦ inr (ground (arith, lf))
  | inr plain ↦
      let r = read_line-Taken room stream h.1 in
      inr (
        ground (
          arith,
          plain,
          ap length r.whole,
          length-append (read_line room stream).0 (read_line room stream).1,
        ))
]

-- The line that is taken, printed in front of what the later rounds print.
printed :
    (t rest : Bytes) (later : Option (List Bytes))
    → IsText t
    → Option.map concat later ≡ some rest
    → (t ≡ [] → rest ≡ [])
    → Option.map concat (print_on t later) ≡ some (t ++ rest)
printed [] rest later text e empty = ground (arith, empty refl)
printed (x ∷ t) rest none text e empty = ground (arith, e)
printed (x ∷ t) rest (some ls) text e empty = ground (arith, e, up_to_zero-text (x ∷ t) text)

none_taken :
    (t : Bytes) {rest stream : Bytes}
    → t ++ rest ≡ stream
    → length rest < length stream
    → t ≡ []
    → rest ≡ []
none_taken [] whole less e = ground (arith, ap length whole, less)
none_taken (x ∷ t) whole less e = ground (arith, e)

-- Whatever text comes through the pipe, `funcRead` ends and prints all of it in order, however its
-- buffer cuts the lines, if there is one round more than there are bytes.
pub func_read-whole :
    (fuel : ℕ) (eof : Bool) (stream : Bytes)
    → IsText stream
    → (eof ≡ true → stream ≡ [])
    → length stream < fuel
    → Option.map concat (func_read fuel eof stream) ≡ some stream
unfolding func_read Shorter
func_read-whole zero eof stream text ended enough = ground (arith, enough)
func_read-whole (suc fuel) true stream text ended enough = ground (arith, ended refl)
func_read-whole (suc fuel) false stream text ended enough =
    let r = read_line-Taken (size_zbuf - 1) stream text in
    let later =
      func_read-whole fuel (read_line 511 stream).2 (read_line 511 stream).1 r.rest_text r.at_end in
    elim (read_line-Shorter 510 stream text) [
      | inl none_left ↦ rw none_left (unfold read_line in refl)
      | inr less ↦
          printed (read_line 511 stream).0 (read_line 511 stream).1 _ r.text
            (later (ground (arith, less, enough)))
            (none_taken (read_line 511 stream).0 r.whole less)
          ∙ ap some r.whole
    ]

func_write-IsText : (msg : Bytes) (cnt : ℕ) → IsText msg → IsText (func_write msg cnt)
unfolding func_write
func_write-IsText msg zero h = tt
func_write-IsText msg (suc cnt) h =
    IsText-append (msg ++ 10 ∷ []) _ (IsText-append msg (10 ∷ []) h (omega arith, tt))
      (func_write-IsText msg cnt h)

-- The child prints what the parent writes, whatever the message and its length, and how often it is
-- written.
pub carried :
    (msg : Bytes) (cnt : ℕ)
    → IsText msg
    → let stream = func_write msg cnt in
      Option.map concat (func_read (suc (length stream)) false stream) ≡ some stream
carried msg cnt h =
    let stream = func_write msg cnt in
    func_read-whole (suc (length stream)) false stream (func_write-IsText msg cnt h)
      (λ e. ground (arith, e)) (omega arith)
