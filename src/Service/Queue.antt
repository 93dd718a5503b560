-- ===== src/Service/Queue.antt =====
-- service/src/hbcb_service/queue.py: the queue contract and its in-memory reference.
pub mod Message
pub mod Memory
pub mod Redis
pub mod Retention
pub mod Fifo
pub mod Settled
mod Tests
