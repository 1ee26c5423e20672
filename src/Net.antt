-- ===== src/Net.antt =====
-- common/net: the formats of the messages and what the gateway does with them.
pub mod Wire
pub mod Gateway
pub mod Publisher
pub mod Descriptors
