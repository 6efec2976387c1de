-- ===== src/Pipe.antt =====
-- ipc-pipe.c and bash_output.c: text that comes through a pipe.
pub mod Stream
pub mod Lines
pub mod Command
pub mod Tests
