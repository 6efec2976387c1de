-- ===== src/Queue.antt =====
-- mqueue_1send_rcv.c, mqueue_2setMsgSize.c and mqueue_3send_rcv_20msgs.c: programs that send messages
-- to themselves over a POSIX message queue.
pub mod Mq
pub mod Programs
pub mod Transfer
pub mod Shown
pub mod Rounds
pub mod Tests
