-- ===== src/Counter/Results.antt =====
-- What the three programs count.
use linux_app_samp.Base.{ℕ, ◌+◌, ◌≡◌, List}
use linux_app_samp.Counter.Threads.{run, total}
use linux_app_samp.Counter.Exclusion.{run-Guarded, run-sum}
use linux_app_samp.Counter.Ending.{Guarded-ends}
use linux_app_samp.Counter.Named
use linux_app_samp.Counter.Blocked
use linux_app_samp.Counter.Mutex

-- In every schedule of the ten threads of semaphore_named.c at most one is between `sem_wait` and
-- `sem_post`, one exactly while the semaphore is 0.
pub named_exclusion :
    (schedule : List ℕ)
    → let (pcs, s) = run Named.task schedule Named.boot in
      s.sem + total Named.task Named.task.inside pcs ≡ 1
named_exclusion schedule =
    (run-Guarded Named.task-IsTask 50 schedule Named.boot Named.boot-Guarded).one

-- No schedule of semaphore_named.c loses an increment: if all its threads have ended, the counter is 50 and the guard is free.
pub named_counts :
    (schedule : List ℕ)
    → let (pcs, s) = run Named.task schedule Named.boot in
      Named.AllEnded pcs → (s.cnt ≡ 50) × (s.sem ≡ 1)
named_counts schedule ended =
    run-sum Named.task-IsTask 50 schedule Named.boot Named.boot-Guarded
      (Named.AllEnded-work _ ended)

-- semaphore_named.c cannot get stuck: whatever its threads have done, a schedule leads on to where all have ended,
-- with the counter at 50.
pub named_ends :
    (schedule : List ℕ)
    → (more : List ℕ) × let (pcs, s) = run Named.task more (run Named.task schedule Named.boot) in
        Named.AllEnded pcs × (s.cnt ≡ 50)
named_ends schedule =
    let now = run Named.task schedule Named.boot in
    let guarded = run-Guarded Named.task-IsTask 50 schedule Named.boot Named.boot-Guarded in
    let (more, ended) = Guarded-ends Named.task-IsTask 50 now guarded in
    (more, (Named.work-AllEnded _ ended, (run-sum Named.task-IsTask 50 more now guarded ended).0))

-- semaphore_named_blocked.c cannot get stuck: whatever its threads have done, a schedule leads on to where all have ended,
-- with the counter at 50.
pub blocked_ends :
    (schedule : List ℕ)
    → (more : List ℕ) × let (pcs, s) =
          run Blocked.task more (run Blocked.task schedule Blocked.boot) in
        Blocked.AllEnded pcs × (s.cnt ≡ 50)
blocked_ends schedule =
    let now = run Blocked.task schedule Blocked.boot in
    let guarded = run-Guarded Blocked.task-IsTask 50 schedule Blocked.boot Blocked.boot-Guarded in
    let (more, ended) = Guarded-ends Blocked.task-IsTask 50 now guarded in
    (
      more,
      (Blocked.work-AllEnded _ ended, (run-sum Blocked.task-IsTask 50 more now guarded ended).0),
    )

-- No schedule of mutex_variable.c loses an increment: if all its threads have ended, the counter is 10 and the guard is free.
pub mutex_counts :
    (schedule : List ℕ)
    → let (pcs, s) = run Mutex.task schedule Mutex.boot in
      Mutex.AllEnded pcs → (s.cnt ≡ 10) × (s.sem ≡ 1)
mutex_counts schedule ended =
    run-sum Mutex.task-IsTask 10 schedule Mutex.boot Mutex.boot-Guarded
      (Mutex.AllEnded-work _ ended)

-- mutex_variable.c cannot get stuck: whatever its threads have done, a schedule leads on to where all have ended,
-- with the counter at 10.
pub mutex_ends :
    (schedule : List ℕ)
    → (more : List ℕ) × let (pcs, s) = run Mutex.task more (run Mutex.task schedule Mutex.boot) in
        Mutex.AllEnded pcs × (s.cnt ≡ 10)
mutex_ends schedule =
    let now = run Mutex.task schedule Mutex.boot in
    let guarded = run-Guarded Mutex.task-IsTask 10 schedule Mutex.boot Mutex.boot-Guarded in
    let (more, ended) = Guarded-ends Mutex.task-IsTask 10 now guarded in
    (more, (Mutex.work-AllEnded _ ended, (run-sum Mutex.task-IsTask 10 more now guarded ended).0))

-- None of the three programs can get stuck: whatever the threads have done, a schedule leads on to where all
-- have ended, with the counter at what all the increments make.
pub programs_end :
    (schedule : List ℕ)
    → ((more : List ℕ) × let (pcs, s) = run Named.task more (run Named.task schedule Named.boot) in
          Named.AllEnded pcs × (s.cnt ≡ 50))
      × ((more : List ℕ) × let (pcs, s) =
              run Blocked.task more (run Blocked.task schedule Blocked.boot) in
            Blocked.AllEnded pcs × (s.cnt ≡ 50))
      × ((more : List ℕ) × let (pcs, s) =
              run Mutex.task more (run Mutex.task schedule Mutex.boot) in
            Mutex.AllEnded pcs × (s.cnt ≡ 10))
programs_end schedule = (named_ends schedule, blocked_ends schedule, mutex_ends schedule)

-- No schedule of semaphore_named.c and none of mutex_variable.c loses an increment: if all threads of a
-- program have ended, its counter is at 50 or at 10, and its guard is free.
pub no_count_lost :
    (schedule schedule' : List ℕ)
    → Named.AllEnded (run Named.task schedule Named.boot).0
    → Mutex.AllEnded (run Mutex.task schedule' Mutex.boot).0
    → let s = (run Named.task schedule Named.boot).1 in
      let s' = (run Mutex.task schedule' Mutex.boot).1 in
      ((s.cnt ≡ 50) × (s.sem ≡ 1)) × ((s'.cnt ≡ 10) × (s'.sem ≡ 1))
no_count_lost schedule schedule' named mutex =
    (named_counts schedule named, mutex_counts schedule' mutex)
