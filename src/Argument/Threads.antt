-- ===== src/Argument/Threads.antt =====
-- `main` and its threads as a state machine over a heap. Which block `malloc` gives is a parameter, and may
-- depend on the blocks in use and on the top of the heap;
-- `malloc` and `pthread_create` are taken to succeed.
use linux_app_samp.Base.{
  ltb, ◌==◌, if◌then◌else◌, ℕ, ◌+◌, Bool, true, false, Option, none, some, List, [], ◌∷◌,
}
use linux_app_samp.Machine.{Reached}

-- The blocks that the program has allocated; any other is none.
abbrev pub Heap : Type 0
Heap = ℕ → Option ℕ

-- `main`: in the loop that creates, in the loop that joins, returned.
pub data MainPc : Type 0 where
  a_create a_join : (loop : ℕ) → MainPc
  a_done : MainPc

-- A thread: not there, in front of its read, of `printf`, of `free`, ended.
pub data ThreadPc : Type 0 where
  t_none : ThreadPc
  t_read : (arg : ℕ) → ThreadPc
  t_print : (arg thr_idx : ℕ) → ThreadPc
  t_free : (arg : ℕ) → ThreadPc
  t_end : ThreadPc

pub record State : Type 0 where
  pub main : MainPc
  pub threads : ℕ → ThreadPc
  pub heap : Heap
  pub top : ℕ  -- no block from here on is allocated
  pub lines : List ℕ  -- the numbers printed, the newest first
  pub broken : Bool  -- a block was used that is not allocated

pub data Move : Type 0 where
  main_step : Move
  thread_step : (thread : ℕ) → Move

abbrev pub k_num : ℕ
k_num = 10

abbrev pub with_thread : ℕ → ThreadPc → State → State
with_thread i t s = record s { threads = λ j. if i == j then t else s.threads j }

abbrev pub with_block : ℕ → Option ℕ → State → State
with_block p v s = record s { heap = λ q. if p == q then v else s.heap q }

abbrev pub is_end : ThreadPc → Bool
is_end t_end = true
is_end _ = false

-- The heads of the loops.
abbrev pub create_at : ℕ → MainPc
create_at i = if ltb i k_num then a_create i else a_join 0

abbrev pub join_at : ℕ → MainPc
join_at i = if ltb i k_num then a_join i else a_done

abbrev pub start : State
start = record {
  main = a_create 0;
  threads = λ j. t_none;
  heap = λ p. none;
  top = 0;
  lines = [];
  broken = false;
}

-- The read of a block, and its release.
abbrev pub read_block : ℕ → ℕ → Option ℕ → State → State
read_block i arg none s = record s { broken = true }
read_block i arg (some v) s = with_thread i (t_print arg v) s

abbrev pub free_block : ℕ → ℕ → Option ℕ → State → State
free_block i arg none s = record s { broken = true }
free_block i arg (some v) s = with_thread i t_end (with_block arg none s)

-- `testFunc`
abbrev pub thread_next : ℕ → ThreadPc → State → Option State
thread_next i t_none s = none
thread_next i (t_read arg) s = some (read_block i arg (s.heap arg) s)
thread_next i (t_print arg v) s =
    some (with_thread i (t_free arg) (record s { lines = v ∷ s.lines }))
thread_next i (t_free arg) s = some (free_block i arg (s.heap arg) s)
thread_next i t_end s = none

-- A round of the first loop: the block, the number in it, and the thread.
abbrev pub create : ℕ → ℕ → State → State
create i pint s = with_thread i (t_read pint) (
    with_block pint (some i)
      (record s { main = create_at (i + 1); top = if ltb pint s.top then s.top else pint + 1 }))

module _ (malloc : Heap → (top : ℕ) → ℕ) where
  abbrev pub main_next : MainPc → State → Option State
  main_next (a_create i) s = some (create i (malloc s.heap s.top) s)
  main_next (a_join i) s =
      if is_end (s.threads i) then some (record s { main = join_at (i + 1) }) else none
  main_next a_done s = none

  unfoldable pub next : Move → State → Option State
  next main_step s = main_next s.main s
  next (thread_step i) s = thread_next i (s.threads i) s

  abbrev pub Running : State → Type 0
  Running = Reached next start
