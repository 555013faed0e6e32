-- ===== src/Dht/Krpc.antt =====
-- src/dht/krpc.rs: the messages of the DHT. A transaction id of two bytes is the number by which
-- `pending` finds who waits for the answer. The text of an error is left out.
pub mod Compact
pub mod RoundTrip
pub mod Answers
use moviehouse.Prelude.{
  ℕ, zero, suc, ◌+◌, ◌-◌, ◌*◌, ◌/◌, ◌%◌, ◌^◌, ℤ, pos, negsuc, List, [], ◌∷◌, ◌++◌, Bool, true,
  false, not, ◌&&◌, ◌||◌, Option, none, some, Outcome, ok, err, out_of_fuel, ◌==◌, if◌then◌else◌,
  length, take, drop, eq_bytes, ascii, replicate,
}
use Prim.Native.String.{String}
use moviehouse.Prelude.Assoc.{find, remove}
use moviehouse.Bencode.Value.{
  BValue, Items, Entries, int, bytes, list, dict, no_items, item, no_entries, insert, as_int,
  as_bytes, as_str, as_list, get_str,
}
use moviehouse.Bencode.Encode.{encode}
use moviehouse.Bencode.Decode.{decode}
use moviehouse.Dht.Address.{SocketAddr, v4, v6}
use moviehouse.Dht.RoutingTable.{NodeId}
use moviehouse.Dht.CompactAddrs.{
  Nodes, port_bytes, port_of, encode_compact_nodes, addr_of, decode_chunks, decode_compact_nodes,
  encode_compact_peer, decode_compact_peer, peer_items, peers_of,
}
use moviehouse.Dht.KrpcWire.{
  KrpcQuery, ping, find_node, get_peers, announce_peer, KrpcResponse, pinged, found_node, got_peers,
  announced, with_key, query_name, query_args, query_value, encode_query, with_values, with_nodes,
  response_args, encode_response, bytes_at, array_at, nodes_at, values_at, got_something,
  decode_response, as_u16, decode_announce, named, decode_args, str_at, decode_query,
}

pub record InboundQuery : Type 0 where
  pub query : KrpcQuery
  pub sender_id : NodeId
  pub sender_addr : SocketAddr
  pub txn_id : List ℕ

-- Who waits for an answer is a number.
pub record KrpcSocket : Type 0 where
  pub own_id : NodeId
  pub pending : List (ℕ × ℕ)

pub data KrpcError : Type 0 where
  decode_failed invalid_message : KrpcError

-- The id of the sender of a query, or twenty zeros.
unfoldable pub sender_of : BValue → NodeId
unfolding get_str array_at
sender_of v = elim (get_str v "a") [
  | none ↦ replicate 20 0
  | some a ↦ elim (array_at a "id") [ none ↦ replicate 20 0 | some id ↦ id ]
]

-- The key of a transaction id that is one of ours.
abbrev pub txn_key : List ℕ → Option ℕ
txn_key (a ∷ b ∷ []) = some (port_of a b)
txn_key _ = none

-- What a message leads to: nothing, an answer to one who waits, or a query to handle.
pub data Effect : Type 0 where
  nothing : Effect
  answer : ℕ → KrpcResponse → Effect
  inbound : InboundQuery → Effect

unfoldable pub on_response : KrpcSocket → BValue → List ℕ → KrpcSocket × Effect
unfolding decode_response
on_response s v txn_id = elim (txn_key txn_id) [
  | none ↦ (s, nothing)
  | some key ↦ elim (find key s.pending) [
    | none ↦ (s, nothing)
    | some waiting ↦ (
      record s { pending = remove key s.pending },
      elim (decode_response v) [ none ↦ nothing | some response ↦ answer waiting response ],
    )
  ]
]

unfoldable pub on_query : BValue → List ℕ → SocketAddr → Effect
unfolding decode_query sender_of
on_query v txn_id addr = elim (decode_query v) [
  | none ↦ nothing
  | some query ↦
      inbound
        (record { query = query; sender_id = sender_of v; sender_addr = addr; txn_id = txn_id })
]

unfoldable pub on_error : KrpcSocket → List ℕ → KrpcSocket
on_error s txn_id = elim (txn_key txn_id) [
  | none ↦ s
  | some key ↦ record s { pending = remove key s.pending }
]

unfoldable pub on_value : KrpcSocket → BValue → SocketAddr → Outcome KrpcError (KrpcSocket × Effect)
unfolding get_str as_str as_bytes on_response on_query on_error
on_value s v addr = elim (str_at v "y") [
  | none ↦ err invalid_message
  | some msg_type ↦ elim (bytes_at v "t") [
    | none ↦ err invalid_message
    | some txn_id ↦
        if named msg_type "r"
        then ok (on_response s v txn_id)
        else if named msg_type "q"
        then ok (s, on_query v txn_id addr)
        else if named msg_type "e"
        then ok (on_error s txn_id, nothing)
        else ok (s, nothing)
  ]
]

unfoldable pub handle_message :
    KrpcSocket → List ℕ → SocketAddr → Outcome KrpcError (KrpcSocket × Effect)
unfolding on_value
handle_message s raw addr = elim (decode raw) [
  | ok v ↦ on_value s v addr
  | err _ ↦ err decode_failed
  | out_of_fuel ↦ out_of_fuel
]
