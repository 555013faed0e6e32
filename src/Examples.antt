-- ===== src/Examples.antt =====
-- Concrete inputs at which the theorems apply.
mod Bencode
mod Peer
mod Bitfield
mod Piece
mod Disk
mod Manager
mod Torrent
mod Engine
mod Session
mod Dht
