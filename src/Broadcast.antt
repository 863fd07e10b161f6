-- ===== src/Broadcast.antt =====
-- The broadcast service (broadcast/): its caches, the keys of its store, the stored block
-- graphs, and the blocks that wait for others.
pub mod Wire
pub mod Database
pub mod Replies
pub mod Store
pub mod Stream
pub mod Progress
pub mod Replay
pub mod Load
pub mod Missing
pub mod Checks
pub mod Cache
pub mod Words
pub mod Transactions
pub mod Keys
pub mod Generate
pub mod Graphs
pub mod Depgraph
pub mod Delivery
pub mod Fetch
pub mod Exchange
pub mod Service
