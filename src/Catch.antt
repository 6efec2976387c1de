-- ===== src/Catch.antt =====
-- ipc-signal.c: handlers of SIGINT and SIGHUP, and who sends the signals.
pub mod Processes
pub mod Invariant
pub mod Steps
pub mod Handlers
pub mod Ending
mod Tests
