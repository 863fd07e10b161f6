-- ===== src/Tests.antt =====
-- Concrete runs, and the theorems at concrete inputs.
mod Consensus
mod Bitset
mod Lexinum
mod Config
mod Broadcast
mod Concrete
mod Iterated
mod Store
mod Transactions
mod Service
mod Generate
mod Network
mod Setup
mod Delivery
