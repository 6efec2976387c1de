-- ===== src/Signal.antt =====
-- mutex_signal.c: the main thread waits on a condition variable for another thread.
pub mod Moves
pub mod Waking
pub mod Tests
