-- ===== src/Disk.antt =====
-- src/disk/: where the pieces are on the disk.
pub mod Mapping
pub mod Io
