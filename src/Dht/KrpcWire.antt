-- ===== src/Dht/KrpcWire.antt =====
-- src/dht/krpc.rs: the queries and responses, and their encodings as bencoded dictionaries.
use moviehouse.Prelude.{
  ℕ, ◌-◌, ◌%◌, ◌^◌, ℤ, pos, negsuc, List, [], ◌∷◌, Bool, Option, none, some, ◌==◌, if◌then◌else◌,
  length, eq_bytes, ascii,
}
use Prim.Native.String.{String}
use moviehouse.Bencode.Value.{
  BValue, Entries, int, bytes, list, dict, no_entries, insert, as_int, as_bytes, as_str, as_list,
  get_str,
}
use moviehouse.Bencode.Encode.{encode}
use moviehouse.Dht.Address.{SocketAddr}
use moviehouse.Dht.RoutingTable.{NodeId}
use moviehouse.Dht.CompactAddrs.{
  Nodes, encode_compact_nodes, decode_compact_nodes, peer_items, peers_of,
}

pub data KrpcQuery : Type 0 where
  ping : KrpcQuery
  find_node : NodeId → KrpcQuery
  get_peers : List ℕ → KrpcQuery
  announce_peer : List ℕ → ℕ → List ℕ → KrpcQuery

pub data KrpcResponse : Type 0 where
  pinged : NodeId → KrpcResponse
  found_node : NodeId → Nodes → KrpcResponse
  got_peers : NodeId → Option (List ℕ) → List SocketAddr → Nodes → KrpcResponse
  announced : NodeId → KrpcResponse

-- `(k, v)` into a map, by the key as the source writes it.
abbrev pub with_key : String → BValue → Entries → Entries
with_key key v m = insert (ascii key) v m

module _ (own_id : NodeId) where
  -- The entries of the dictionary with the name of the query, and those of its arguments.
  unfoldable pub query_name : KrpcQuery → String
  query_name ping = "ping"
  query_name (find_node target) = "find_node"
  query_name (get_peers info_hash) = "get_peers"
  query_name (announce_peer info_hash port token) = "announce_peer"

  unfoldable pub query_args : KrpcQuery → Entries
  query_args ping = with_key "id" (bytes own_id) no_entries
  query_args (find_node target) =
      with_key "target" (bytes target) (with_key "id" (bytes own_id) no_entries)
  query_args (get_peers info_hash) =
      with_key "info_hash" (bytes info_hash) (with_key "id" (bytes own_id) no_entries)
  query_args (announce_peer info_hash port token) = with_key "token" (bytes token) (
      with_key "port" (int (pos port))
        (with_key "info_hash" (bytes info_hash) (with_key "id" (bytes own_id) no_entries)))

  unfoldable pub query_value : List ℕ → KrpcQuery → BValue
  unfolding query_name query_args
  query_value txn_id query = dict (
      with_key "a" (dict (query_args query)) (
        with_key "q" (bytes (ascii (query_name query)))
          (with_key "y" (bytes (ascii "q")) (with_key "t" (bytes txn_id) no_entries))))

  unfoldable pub encode_query : List ℕ → KrpcQuery → List ℕ
  unfolding query_value
  encode_query txn_id query = encode (query_value txn_id query)

  -- `values` and `nodes`, where there are any.
  abbrev pub with_values : List SocketAddr → Entries → Entries
  with_values [] r = r
  with_values (addr ∷ peers) r = with_key "values" (list (peer_items (addr ∷ peers))) r

  abbrev pub with_nodes : Nodes → Entries → Entries
  with_nodes [] r = r
  with_nodes (n ∷ nodes) r = with_key "nodes" (bytes (encode_compact_nodes (n ∷ nodes))) r

  unfoldable pub response_args : KrpcResponse → Entries
  unfolding encode_compact_nodes peer_items
  response_args (pinged id) = with_key "id" (bytes own_id) no_entries
  response_args (announced id) = with_key "id" (bytes own_id) no_entries
  response_args (found_node id nodes) =
      with_key "nodes" (bytes (encode_compact_nodes nodes))
        (with_key "id" (bytes own_id) no_entries)
  response_args (got_peers id token peers nodes) =
      let r = with_key "id" (bytes own_id) no_entries in
      let r₁ : Entries = elim token [ none ↦ r | some t ↦ with_key "token" (bytes t) r ] in
      let r₂ : Entries = with_values peers r₁ in with_nodes nodes r₂

  unfoldable pub encode_response : List ℕ → KrpcResponse → List ℕ
  unfolding response_args
  encode_response txn_id response = encode (
      dict (
        with_key "r" (dict (response_args response))
          (with_key "y" (bytes (ascii "r")) (with_key "t" (bytes txn_id) no_entries))))

-- `val.get_str(key)?.as_bytes()?`
abbrev pub bytes_at : BValue → String → Option (List ℕ)
bytes_at v key = elim (get_str v key) [ none ↦ none | some w ↦ as_bytes w ]

-- The same for an array of 20 bytes.
unfoldable pub array_at : BValue → String → Option (List ℕ)
array_at v key = elim (bytes_at v key) [
  | none ↦ none
  | some raw ↦ if length raw == 20 then some raw else none
]

abbrev pub nodes_at : BValue → Nodes
nodes_at r = elim (bytes_at r "nodes") [ none ↦ [] | some raw ↦ decode_compact_nodes raw ]

abbrev pub values_at : BValue → List SocketAddr
values_at r = elim (get_str r "values") [
  | none ↦ []
  | some v ↦ elim (as_list v) [ none ↦ [] | some vs ↦ peers_of vs ]
]

abbrev pub got_something : NodeId → Option (List ℕ) → List SocketAddr → Nodes → KrpcResponse
got_something id none [] [] = pinged id
got_something id token peers nodes = got_peers id token peers nodes

unfoldable pub decode_response : BValue → Option KrpcResponse
unfolding get_str array_at as_bytes as_list decode_compact_nodes peers_of
decode_response v = elim (get_str v "r") [
  | none ↦ none
  | some r ↦ elim (array_at r "id") [
    | none ↦ none
    | some id ↦ some (got_something id (bytes_at r "token") (values_at r) (nodes_at r))
  ]
]

-- `as u16`
abbrev pub as_u16 : ℤ → ℕ
as_u16 (pos n) = n % 2 ^ 16
as_u16 (negsuc n) = 2 ^ 16 - 1 - n % 2 ^ 16

unfoldable pub decode_announce : BValue → Option KrpcQuery
unfolding get_str array_at as_bytes as_int
decode_announce args = elim (array_at args "info_hash") [
  | none ↦ none
  | some info_hash ↦ elim (get_str args "port") [
    | none ↦ none
    | some p ↦ elim (as_int p) [
      | none ↦ none
      | some port ↦ elim (bytes_at args "token") [
        | none ↦ none
        | some token ↦ some (announce_peer info_hash (as_u16 port) token)
      ]
    ]
  ]
]

abbrev pub named : List ℕ → String → Bool
named q name = eq_bytes q (ascii name)

unfoldable pub decode_args : List ℕ → BValue → Option KrpcQuery
unfolding array_at decode_announce
decode_args q args =
    if named q "ping"
    then some ping
    else if named q "find_node"
    then elim (array_at args "target") [ none ↦ none | some target ↦ some (find_node target) ]
    else if named q "get_peers"
    then elim (array_at args "info_hash") [ none ↦ none | some hash ↦ some (get_peers hash) ]
    else if named q "announce_peer"
    then decode_announce args
    else none

abbrev pub str_at : BValue → String → Option (List ℕ)
str_at v key = elim (get_str v key) [ none ↦ none | some w ↦ as_str w ]

unfoldable pub decode_query : BValue → Option KrpcQuery
unfolding get_str as_str decode_args
decode_query v = elim (str_at v "q") [
  | none ↦ none
  | some q ↦ elim (get_str v "a") [ none ↦ none | some args ↦ decode_args q args ]
]
