-- ===== src/MsgQueue.antt =====
-- task3/msg-queue-SYSV: a file goes through a message queue. `Main` is src/mq_main.c.
pub mod Main
pub mod Delivery
pub mod Tests
