-- ===== src/Network.antt =====
-- p2p/: the connections of a node and its peers.
pub mod ConnectionProvider
pub mod PeerPool
pub mod Transfer
pub mod Addresses
