-- ===== src/Segment.antt =====
-- ipc-sharedMemory.c: one child writes a text to a shared memory segment, another shows it.
pub mod Processes
pub mod Invariant
pub mod Children
pub mod Prefix
pub mod Ending
pub mod Tests
