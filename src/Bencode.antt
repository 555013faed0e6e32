-- ===== src/Bencode.antt =====
-- src/bencode/: the encoding of torrent files, extension messages and DHT packets.
pub mod Value
pub mod Decimal
pub mod Encode
pub mod Decode
pub mod RoundTrip
pub mod Sound
pub mod Whole
mod Tests
