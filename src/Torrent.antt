-- ===== src/Torrent.antt =====
-- src/torrent/: what a torrent file says.
pub mod Metainfo
