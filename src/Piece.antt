-- ===== src/Piece.antt =====
-- src/piece/: the pieces of a torrent, which of them there are and which to ask for next.
pub mod Bitfield
pub mod Progress
pub mod Picker
pub mod Store
