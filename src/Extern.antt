-- ===== src/Extern.antt =====
-- The containers of other packages that the program is built on, as operations and laws.
pub mod UnorderedMap
pub mod AssocMap
pub mod Double
pub mod Kernel
pub mod FileTable
