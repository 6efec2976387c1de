-- ===== src/Pipe/Stream.antt =====
-- ipc-pipe.c. What has gone through the pipe when its writer closes it is one list of bytes: how the
-- pipe and the buffer of `FILE` cut it does not show in `fgets`.
use mathlib.Core.Option
use linux_app_samp.Base.{
  ◌==◌, if◌then◌else◌, length, Bytes, codes, ℕ, zero, suc, ◌-◌, Bool, true, false, Option, none,
  some, List, [], ◌∷◌, ◌++◌,
}

abbrev pub size_zbuf : ℕ
size_zbuf = 512

-- The bytes that `fgets` takes of a stream, at most `room` and up to a line feed, the rest of it, and
-- whether it has met the end.
unfoldable pub read_line : (room : ℕ) → Bytes → Bytes × Bytes × Bool
read_line zero stream = ([], stream, false)
read_line (suc room) [] = ([], [], true)
read_line (suc room) (x ∷ stream) =
    let (taken, rest, eof) = read_line room stream in
    if x == 10 then (x ∷ [], stream, false) else (x ∷ taken, rest, eof)

-- What `%s` shows of bytes with a zero behind them.
abbrev pub up_to_zero : Bytes → Bytes
up_to_zero [] = []
up_to_zero (x ∷ xs) = if x == 0 then [] else x ∷ up_to_zero xs

-- `fgets` gives NULL if it has taken nothing; else the bytes are printed and the loop goes on.
abbrev pub print_on : Bytes → Option (List Bytes) → Option (List Bytes)
print_on [] rest = some []
print_on (x ∷ taken) rest = Option.map (λ ls. up_to_zero (x ∷ taken) ∷ ls) rest

-- `funcRead` on fuel for its rounds: the texts that it prints, none if the fuel runs out. There are no
-- errors of the stream.
unfoldable pub func_read : ℕ → (eof : Bool) → Bytes → Option (List Bytes)
unfolding read_line
func_read zero eof stream = none
func_read (suc fuel) true stream = some []
func_read (suc fuel) false stream =
    let (taken, rest, eof) = read_line (size_zbuf - 1) stream in
    print_on taken (func_read fuel eof rest)

abbrev pub concat : List Bytes → Bytes
concat [] = []
concat (l ∷ ls) = l ++ concat ls

-- `funcWrite`: what it writes to the stream.
unfoldable pub func_write : Bytes → (cnt : ℕ) → Bytes
func_write msg zero = []
func_write msg (suc cnt) = (msg ++ 10 ∷ []) ++ func_write msg cnt

abbrev pub parent_msg : Bytes
parent_msg = codes "message from parent"

-- `main`: what the two processes print, the parent first. Where the output is no terminal, `start` is
-- still in the buffer that `fork` copies. A round of `funcRead` takes a byte or is the last, so that
-- there is fuel enough.
unfoldable pub main : (terminal : Bool) → List Bytes × Option (List Bytes)
unfolding func_read func_write
main terminal =
    let stream = func_write parent_msg 3 in
    let begin = if terminal then [] else codes "start\n" ∷ [] in
    (
      codes "start\n" ∷ codes "after fork\n" ∷ [],
      Option.map (λ ls. begin ++ (codes "after fork\n" ∷ ls))
          (func_read (suc (length stream)) false stream),
    )
