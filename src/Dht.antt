-- ===== src/Dht.antt =====
-- src/dht/: the distributed hash table.
pub mod Address
pub mod RoutingTable
pub mod Token
pub mod CompactAddrs
pub mod KrpcWire
pub mod Krpc
pub mod Node
