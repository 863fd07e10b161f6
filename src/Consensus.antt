-- ===== src/Consensus.antt =====
-- The consensus interpreter, package blockmania/.
pub mod Block
pub mod Messages
pub mod StateData
pub mod Bitset
pub mod State
pub mod Graph
