-- ===== src/Pipe/Tests.antt =====
-- Runs of the programs on a pipe, and the theorems at concrete inputs.
use mathlib.Core.Option
use linux_app_samp.Base.{
  take, drop, replicate, Bytes, overlay, codes, c_str, ◌≡◌, refl, true, false, some, [], ◌∷◌, ◌++◌,
  arith,
}
use linux_app_samp.Pipe.Stream.{read_line, func_read, concat, func_write, main}
use linux_app_samp.Pipe.Lines.{carried}
use linux_app_samp.Pipe.Command.{Shown, printed, over_the_end, expected}
use linux_app_samp.Pipe.Command as Command

abbrev hi : Bytes
hi = codes "hi"

carried_example : Option.map concat (func_read 7 false (func_write hi 2)) ≡ some (func_write hi 2)
unfolding func_write
carried_example = carried hi 2 (omega arith, (omega arith, tt))

-- On a terminal the child prints each message as it comes; into a file it prints `start` once more.
lines : main true ≡ (
  codes "start\n" ∷ codes "after fork\n" ∷ [],
  some (codes "after fork\n" ∷ replicate 3 (codes "message from parent\n")),
)
unfolding main func_read read_line func_write replicate
lines = refl

-- The array holds a `!` and a zero behind the output.
abbrev buf : Bytes
buf = replicate 2 120 ++ (33 ∷ replicate 97 0)

short_output : expected buf hi ≡ printed (codes "Output:hi!")
unfolding expected drop c_str replicate
short_output = refl

long_output : Command.main buf (some (replicate 100 120)) ≡ over_the_end
unfolding Command.main Command.read_rounds overlay take drop c_str replicate
long_output = refl
