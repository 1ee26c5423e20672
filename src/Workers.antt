-- ===== src/Workers.antt =====
-- common/workers: what the threads do with the messages of their queues.
pub mod Inventory
pub mod Drain
pub mod MatchingEngine
