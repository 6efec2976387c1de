-- ===== src/Pipe/Command.antt =====
-- bash_output.c: the output of a command in an array of 100 bytes, to which no zero is added.
use mathlib.Core.Option
use linux_app_samp.Base.{
  ltb, if◌then◌else◌, length, take, drop, Bytes, overlay, codes, c_str, ℕ, zero, suc, Option, none,
  some, ◌++◌,
}

-- `fread(buf, 1, 100, pipe)` until the end of the stream, on fuel for its rounds: the array.
unfoldable pub read_rounds : ℕ → (buf : Bytes) → (stream : Bytes) → Option Bytes
unfolding overlay take drop
read_rounds zero buf stream = none
read_rounds (suc fuel) buf stream =
    let rest = read_rounds fuel (overlay (take 100 stream) buf) (drop 100 stream) in
    if ltb (length stream) 100 then some (overlay (take 100 stream) buf) else rest

-- `main`: the text that it prints. `buf` is what the array holds at first, `stream` is the output of
-- the command, none if `popen` fails; without a zero in the array `%s` reads behind its end.
pub data Shown : Type 0 where
  printed : Bytes → Shown
  over_the_end : Shown
  goes_on : Shown

abbrev pub shown : Option Bytes → Shown
shown none = over_the_end
shown (some t) = printed (codes "Output:" ++ t)

abbrev pub show : Option Bytes → Shown
show none = goes_on
show (some buf) = shown (c_str buf)

unfoldable pub main : (buf : Bytes) → (pipe : Option Bytes) → Shown
unfolding read_rounds
main buf none = printed (codes "error\n")
main buf (some stream) = show (read_rounds (suc (length stream)) buf stream)

-- What `printf` shows of the output and of what the array held behind it.
unfoldable pub expected : (buf stream : Bytes) → Shown
unfolding c_str drop
expected buf stream =
    if ltb (length stream) 100
    then shown (Option.map (λ tail. stream ++ tail) (c_str (drop (length stream) buf)))
    else over_the_end
