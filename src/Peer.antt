-- ===== src/Peer.antt =====
-- src/peer/: the wire protocol between peers.
pub mod Message
pub mod Codec
pub mod Handshake
pub mod Manager
