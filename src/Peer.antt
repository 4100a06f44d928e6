-- ===== src/Peer.antt =====
-- p2p/peer/: the protocol that a node follows with one peer.
pub mod Receiving
pub mod Interest
pub mod Sending
pub mod Handshaking
pub mod Syncing
pub mod Machine
