-- ===== src/Transfer.antt =====
-- app_05common.h, app_05tcp_trans1MB_server.c, app_05tcp_trans1MB_client.c: one megabyte of data
-- sent over TCP in packets that carry the position of the end of the data.
pub mod Wire
pub mod Layout
pub mod Sender
pub mod Receiver
pub mod Check
pub mod RoundTrip
pub mod Request
pub mod Reply
pub mod Client
pub mod Session
pub mod Faults
mod Tests
