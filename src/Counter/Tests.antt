-- ===== src/Counter/Tests.antt =====
-- The counting programs in concrete schedules.
use linux_app_samp.Base.{replicate, codes, dec, ℕ, zero, suc, ◌+◌, ◌≡◌, refl, List, [], ◌∷◌, ◌++◌}
use linux_app_samp.Counter.Threads.{run, step_at, total}
use linux_app_samp.Counter.Named
use linux_app_samp.Counter.Blocked
use linux_app_samp.Counter.Mutex
use linux_app_samp.Counter.Results.{named_exclusion, programs_end, no_count_lost}

-- `times n i` lets the thread of the number `i` take `n` steps.
abbrev times : ℕ → ℕ → List ℕ
times zero i = []
times (suc n) i = i ∷ times n i

-- The threads of the numbers 0 to n - 1 one after another, `k` steps each, the last first.
abbrev in_turn : ℕ → ℕ → List ℕ
in_turn k zero = []
in_turn k (suc n) = times k n ++ in_turn k n

-- The second thread is blocked while the first is between its load and its store.
abbrev contended : List ℕ
contended = 0 ∷ 0 ∷ 1 ∷ 1 ∷ 0 ∷ 0 ∷ 0 ∷ 1 ∷ []

contended_cnt : (run Named.task contended Named.boot).1.cnt ≡ 1
unfolding run step_at Named.step replicate
contended_cnt = refl

named_lines :
    (run Named.task (times 10 0) Named.boot).1.lines
    ≡ codes "g_cnt : 0 > 2\n" ∷ codes "g_cnt : 0 > 1\n" ∷ []
unfolding run step_at Named.step Named.cnt_line replicate dec
named_lines = refl

blocked_lines : (run Blocked.task (0 ∷ 0 ∷ 3 ∷ []) Blocked.boot).1.lines ≡ codes "blocked\n" ∷ []
unfolding run step_at Blocked.step replicate
blocked_lines = refl

named_exclusion_example :
    let (pcs, s) = run Named.task contended Named.boot in
    s.sem + total Named.task Named.task.inside pcs ≡ 1
named_exclusion_example = named_exclusion contended

named_all : Named.AllEnded (run Named.task (in_turn 25 10) Named.boot).0
unfolding run step_at Named.step replicate
named_all = tt

blocked_all : Blocked.AllEnded (run Blocked.task (in_turn 30 10) Blocked.boot).0
unfolding run step_at Blocked.step replicate
blocked_all = tt

mutex_all : Mutex.AllEnded (run Mutex.task (in_turn 50 2) Mutex.boot).0
unfolding run step_at Mutex.step
mutex_all = tt

programs_end_example :
    ((more : List ℕ) × let (pcs, s) = run Named.task more (run Named.task contended Named.boot) in
        Named.AllEnded pcs × (s.cnt ≡ 50))
    × ((more : List ℕ) × let (pcs, s) =
            run Blocked.task more (run Blocked.task contended Blocked.boot) in
          Blocked.AllEnded pcs × (s.cnt ≡ 50))
    × ((more : List ℕ) × let (pcs, s) = run Mutex.task more (run Mutex.task contended Mutex.boot) in
          Mutex.AllEnded pcs × (s.cnt ≡ 10))
programs_end_example = programs_end contended

no_count_lost_example :
    let s = (run Named.task (in_turn 25 10) Named.boot).1 in
    let s' = (run Mutex.task (in_turn 50 2) Mutex.boot).1 in
    ((s.cnt ≡ 50) × (s.sem ≡ 1)) × ((s'.cnt ≡ 10) × (s'.sem ≡ 1))
no_count_lost_example = no_count_lost (in_turn 25 10) (in_turn 50 2) named_all mutex_all
