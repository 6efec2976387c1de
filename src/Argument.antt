-- ===== src/Argument.antt =====
-- posix_thread_5passingOneArgument.c: each thread gets its number in memory of its own.
pub mod Threads
pub mod Places
pub mod Blocks
pub mod Numbers
pub mod Finish
mod Tests
