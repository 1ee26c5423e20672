-- ===== src/Core.antt =====
-- common/core: the types and messages, and the sequence lock.
pub mod Types
pub mod Tickers
pub mod Seqlock
