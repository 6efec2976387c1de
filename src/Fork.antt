-- ===== src/Fork.antt =====
-- proc_fork.c: two children that print three lines each, and a parent that waits for them.
pub mod Processes
pub mod Invariant
pub mod Lines
pub mod Ending
mod Tests
