-- ===== src/Counter.antt =====
-- semaphore_named.c, semaphore_named_blocked.c and mutex_variable.c: threads that share a counter.
pub mod Threads
pub mod Exclusion
pub mod Ending
pub mod Named
pub mod Blocked
pub mod Mutex
pub mod Results
pub mod Tests
