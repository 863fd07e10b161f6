-- ===== src/Network.antt =====
-- The connections and the topology of a network of nodes (network/).
pub mod Transport
pub mod Buffers
pub mod Conn
pub mod Topology
