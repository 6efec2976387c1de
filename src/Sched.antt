-- ===== src/Sched.antt =====
-- posix_thread_4fifo.c and posix_thread_6highLowPri.c: threads with priorities.
pub mod HandOff
pub mod Places
pub mod Indices
pub mod Finish
pub mod Busy
pub mod Rounds
mod Tests
