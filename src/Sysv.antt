-- ===== src/Sysv.antt =====
-- msg_0send_rcv.c and msg_1thread_send_rcv.c: messages over a System V queue.
pub mod Threads
pub mod Order
pub mod Delivery
pub mod Alone
pub mod Tests
