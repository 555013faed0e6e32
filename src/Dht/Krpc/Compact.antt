-- ===== src/Dht/Krpc/Compact.antt =====
-- src/dht/krpc.rs: the compact encodings of nodes and peers.
use moviehouse.Prelude.{
  ℕ, ◌*◌, ◌/◌, ◌%◌, ◌^◌, ◌<◌, ◌≡◌, refl, sym, ap, ◌∙◌, arith, List, [], ◌∷◌, ◌++◌, length,
  length-append, take, drop, take-append, drop-append, append_assoc,
}
use moviehouse.Dht.Address.{SocketAddr, v4, v6}
use moviehouse.Dht.CompactAddrs.{
  Nodes, port_bytes, port_of, encode_compact_nodes, addr_of, decode_chunks, decode_compact_nodes,
}

-- An address of the program's types, if it has four bytes; those of sixteen are not written.
abbrev pub IsAddr : SocketAddr → Type 0
IsAddr (v4 ip port) = (length ip ≡ 4) × (port < 2 ^ 16)
IsAddr (v6 ip port) = Unit

abbrev pub AllNodes : Nodes → Type 0
AllNodes [] = Unit
AllNodes ((id, addr) ∷ nodes) = (length id ≡ 20) × IsAddr addr × AllNodes nodes

abbrev pub AllAddrs : List SocketAddr → Type 0
AllAddrs [] = Unit
AllAddrs (addr ∷ addrs) = IsAddr addr × AllAddrs addrs

-- The nodes and the peers whose address has four bytes.
unfoldable pub only_v4 : Nodes → Nodes
only_v4 [] = []
only_v4 ((id, v4 ip port) ∷ nodes) = (id, v4 ip port) ∷ only_v4 nodes
only_v4 ((id, v6 ip port) ∷ nodes) = only_v4 nodes

unfoldable pub only_v4_peers : List SocketAddr → List SocketAddr
only_v4_peers [] = []
only_v4_peers (v4 ip port ∷ peers) = v4 ip port ∷ only_v4_peers peers
only_v4_peers (v6 ip port ∷ peers) = only_v4_peers peers

port_of-port_bytes : (port : ℕ) → port < 2 ^ 16 → port_of (port / 256 % 256) (port % 256) ≡ port
port_of-port_bytes port h = omega arith

pub addr_of-v4 :
    (ip : List ℕ) (port : ℕ) (rest : List ℕ)
    → length ip ≡ 4
    → port < 2 ^ 16
    → addr_of (ip ++ port_bytes port ++ rest) ≡ v4 ip port
addr_of-v4 [] port rest h k = absurd (omega arith)
addr_of-v4 (a ∷ []) port rest h k = absurd (omega arith)
addr_of-v4 (a ∷ b ∷ []) port rest h k = absurd (omega arith)
addr_of-v4 (a ∷ b ∷ c ∷ []) port rest h k = absurd (omega arith)
addr_of-v4 (a ∷ b ∷ c ∷ d ∷ []) port rest h k =
    ap (λ p. v4 (a ∷ b ∷ c ∷ d ∷ []) p) (port_of-port_bytes port k)
addr_of-v4 (a ∷ b ∷ c ∷ d ∷ e ∷ ip) port rest h k = absurd (omega arith)

length-v4 :
    (id ip : List ℕ) (port : ℕ)
    → length id ≡ 20
    → length ip ≡ 4
    → length (id ++ ip ++ port_bytes port) ≡ 26
length-v4 id ip port h k =
    omega (arith, length-append (id ++ ip) (port_bytes port), length-append id ip)

-- The bytes are as many chunks as there are nodes that are written.
length-encode_compact_nodes :
    (nodes : Nodes)
    → AllNodes nodes
    → length (encode_compact_nodes nodes) ≡ 26 * length (only_v4 nodes)
unfolding encode_compact_nodes only_v4
length-encode_compact_nodes [] h = refl
length-encode_compact_nodes ((id, v4 ip port) ∷ nodes) h = omega (
  arith,
  length-append (id ++ ip ++ port_bytes port) (encode_compact_nodes nodes),
  length-v4 id ip port h.0 h.1.0,
  length-encode_compact_nodes nodes h.2,
)
length-encode_compact_nodes ((id, v6 ip port) ∷ nodes) h = length-encode_compact_nodes nodes h.2

decode_chunks-encode :
    (nodes : Nodes)
    → AllNodes nodes
    → decode_chunks (length (only_v4 nodes)) (encode_compact_nodes nodes) ≡ only_v4 nodes
unfolding encode_compact_nodes only_v4 decode_chunks
decode_chunks-encode [] h = refl
decode_chunks-encode ((id, v6 ip port) ∷ nodes) h = decode_chunks-encode nodes h.2
decode_chunks-encode ((id, v4 ip port) ∷ nodes) h =
    let rest = encode_compact_nodes nodes in
    let front = id ++ ip ++ port_bytes port in
    let split : front ++ rest ≡ id ++ (ip ++ port_bytes port ++ rest) =
      append_assoc (id ++ ip) (port_bytes port) rest
      ∙ append_assoc id ip (port_bytes port ++ rest)
      ∙ ap (λ l. id ++ l) (sym (append_assoc ip (port_bytes port) rest)) in
    let e₁ : take 20 (front ++ rest) ≡ id =
      rw (split, ← h.0) (take-append id (ip ++ port_bytes port ++ rest)) in
    let e₂ : drop 20 (front ++ rest) ≡ ip ++ port_bytes port ++ rest =
      rw (split, ← h.0) (drop-append id (ip ++ port_bytes port ++ rest)) in
    let e₃ : drop 26 (front ++ rest) ≡ rest =
      rw (← length-v4 id ip port h.0 h.1.0) (drop-append front rest) in
    let e₄ : addr_of (drop 20 (front ++ rest)) ≡ v4 ip port =
      rw e₂ (addr_of-v4 ip port rest h.1.0 h.1.1) in
    rw (e₁, e₃)
      (ap (λ a. (id, a) ∷ decode_chunks (length (only_v4 nodes)) rest) e₄
        ∙ ap (λ l. (id, v4 ip port) ∷ l) (decode_chunks-encode nodes h.2))

-- The nodes that `encode_compact_nodes` writes are read back: all whose address has four bytes, in
-- their order. Their ids have 20 bytes and their ports 16 bits.
pub decode_compact_nodes-encode_compact_nodes :
    (nodes : Nodes)
    → AllNodes nodes
    → decode_compact_nodes (encode_compact_nodes nodes) ≡ only_v4 nodes
unfolding decode_compact_nodes
decode_compact_nodes-encode_compact_nodes nodes h =
    let many : length (encode_compact_nodes nodes) / 26 ≡ length (only_v4 nodes) =
      omega (arith, length-encode_compact_nodes nodes h) in
    rw many (decode_chunks-encode nodes h)
