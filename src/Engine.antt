-- ===== src/Engine.antt =====
-- common/engine: the matching engine, and what is built on it.
pub mod FlatMap
pub mod Book
pub mod Match
pub mod MatchingEngine
pub mod Router
pub mod User
pub mod UserRegistry
pub mod Instrument
