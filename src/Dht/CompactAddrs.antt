-- ===== src/Dht/CompactAddrs.antt =====
-- src/dht/krpc.rs: the compact encodings of nodes and of peers.
use moviehouse.Prelude.{
  ℕ, zero, suc, ◌+◌, ◌*◌, ◌/◌, ◌%◌, List, [], ◌∷◌, ◌++◌, Option, none, some, ◌==◌, if◌then◌else◌,
  length, take, drop,
}
use moviehouse.Bencode.Value.{Items, bytes, no_items, item, as_bytes}
use moviehouse.Dht.Address.{SocketAddr, v4, v6}
use moviehouse.Dht.RoutingTable.{NodeId}

abbrev pub Nodes : Type 0
Nodes = List (NodeId × SocketAddr)

-- `port.to_be_bytes()` and `u16::from_be_bytes`
abbrev pub port_bytes : ℕ → List ℕ
port_bytes port = (port / 256 % 256) ∷ (port % 256) ∷ []

abbrev pub port_of : ℕ → ℕ → ℕ
port_of high low = high * 256 + low

unfoldable pub encode_compact_nodes : Nodes → List ℕ
encode_compact_nodes [] = []
encode_compact_nodes ((id, v4 ip port) ∷ nodes) =
    (id ++ ip ++ port_bytes port) ++ encode_compact_nodes nodes
encode_compact_nodes ((id, v6 ip port) ∷ nodes) = encode_compact_nodes nodes

-- The address in the last six bytes of a chunk. Fewer do not occur.
abbrev pub addr_of : List ℕ → SocketAddr
addr_of (a ∷ b ∷ c ∷ d ∷ high ∷ low ∷ _) = v4 (a ∷ b ∷ c ∷ d ∷ []) (port_of high low)
addr_of _ = v4 [] 0

-- `chunks_exact(26)`, for a number of chunks
unfoldable pub decode_chunks : ℕ → List ℕ → Nodes
decode_chunks zero raw = []
decode_chunks (suc n) raw = (take 20 raw, addr_of (drop 20 raw)) ∷ decode_chunks n (drop 26 raw)

unfoldable pub decode_compact_nodes : List ℕ → Nodes
unfolding decode_chunks
decode_compact_nodes raw = decode_chunks (length raw / 26) raw

unfoldable pub encode_compact_peer : SocketAddr → List ℕ
encode_compact_peer (v4 ip port) = ip ++ port_bytes port
encode_compact_peer (v6 ip port) = []

unfoldable pub decode_compact_peer : List ℕ → Option SocketAddr
decode_compact_peer raw = if length raw == 6 then some (addr_of raw) else none

-- The values of a list of peers, and the peers of a list of values.
unfoldable pub peer_items : List SocketAddr → Items
unfolding encode_compact_peer
peer_items [] = no_items
peer_items (addr ∷ peers) = item (bytes (encode_compact_peer addr)) (peer_items peers)

unfoldable pub peers_of : Items → List SocketAddr
unfolding as_bytes decode_compact_peer
peers_of no_items = []
peers_of (item v vs) =
    let rest = peers_of vs in
    elim (as_bytes v) [
      | none ↦ rest
      | some raw ↦ elim (decode_compact_peer raw) [ none ↦ rest | some addr ↦ addr ∷ rest ]
    ]
