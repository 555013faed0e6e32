-- ===== src/Dht/Krpc/RoundTrip.antt =====
-- src/dht/krpc.rs: a query arrives as it was sent.
use moviehouse.Prelude.{
  ℕ, ◌%◌, ◌^◌, ◌<◌, ◌≡◌, refl, ap, is_utf8, arith, List, true, some, ok, ◌==◌, length, ascii, pos,
}
use Prim.Native.String.{String}
use moviehouse.Bencode.Value.{BValue, int, bytes, dict, insert, get_str, as_bytes, as_str, as_int}
use moviehouse.Bencode.Decode.{max_depth}
use moviehouse.Bencode.RoundTrip.Brackets.{Fits}
use moviehouse.Bencode.Whole.{decode-encode}
use moviehouse.Dht.Address.{SocketAddr}
use moviehouse.Dht.RoutingTable.{NodeId}
use moviehouse.Dht.KrpcWire.{
  KrpcQuery, ping, find_node, get_peers, announce_peer, str_at, bytes_at, query_name, query_args,
  query_value, encode_query, decode_query, decode_args, decode_announce, array_at,
}
use moviehouse.Dht.Krpc.{KrpcSocket, inbound, handle_message, on_value, on_query, sender_of}

-- A query of the program's types: hashes of twenty bytes and a port of sixteen bits.
abbrev pub IsQuery : KrpcQuery → Type 0
IsQuery ping = Unit
IsQuery (find_node target) = length target ≡ 20
IsQuery (get_peers info_hash) = length info_hash ≡ 20
IsQuery (announce_peer info_hash port token) = (length info_hash ≡ 20) × (port < 2 ^ 16)

query_value-Fits :
    (own_id : NodeId) (txn_id : List ℕ) (query : KrpcQuery)
    → IsQuery query
    → Fits max_depth (query_value own_id txn_id query)
unfolding query_value insert Fits
query_value-Fits own_id txn_id ping h = ground arith
query_value-Fits own_id txn_id (find_node target) h = ground arith
query_value-Fits own_id txn_id (get_peers info_hash) h = ground arith
query_value-Fits own_id txn_id (announce_peer info_hash port token) h = ground arith

-- Twenty bytes are an array of twenty.
pub array_at-some :
    (v : BValue) (key : String) (raw : List ℕ)
    → bytes_at v key ≡ some raw
    → length raw ≡ 20
    → array_at v key ≡ some raw
unfolding array_at
array_at-some v key raw e h =
    let same : (length raw == 20) ≡ true = ground arith in rw (e, array_at) (rw same refl)

args_at :
    (own_id : NodeId) (txn_id : List ℕ) (query : KrpcQuery)
    → get_str (query_value own_id txn_id query) "a" ≡ some (dict (query_args own_id query))
unfolding query_value insert get_str
args_at own_id txn_id query = refl

name_at :
    (own_id : NodeId) (txn_id : List ℕ) (query : KrpcQuery)
    → get_str (query_value own_id txn_id query) "q" ≡ some (bytes (ascii (query_name own_id query)))
unfolding query_value insert get_str
name_at own_id txn_id query = refl

id_at :
    (own_id : NodeId) (query : KrpcQuery)
    → bytes_at (dict (query_args own_id query)) "id" ≡ some own_id
unfolding query_args insert get_str as_bytes
id_at own_id ping = refl
id_at own_id (find_node target) = refl
id_at own_id (get_peers info_hash) = refl
id_at own_id (announce_peer info_hash port token) = refl

sender_of-query_value :
    (own_id : NodeId) (txn_id : List ℕ) (query : KrpcQuery)
    → length own_id ≡ 20
    → sender_of (query_value own_id txn_id query) ≡ own_id
unfolding sender_of
sender_of-query_value own_id txn_id query h =
    let args = dict (query_args own_id query) in
    rw
      (
        args_at own_id txn_id query,
        array_at-some args "id" own_id (id_at own_id query) h,
        sender_of,
      )
      refl

-- The entries that each query has beside the id.
target_at :
    (own_id target : NodeId)
    → bytes_at (dict (query_args own_id (find_node target))) "target" ≡ some target
unfolding query_args insert get_str as_bytes
target_at own_id target = refl

hash_at :
    (own_id info_hash : List ℕ)
    → bytes_at (dict (query_args own_id (get_peers info_hash))) "info_hash" ≡ some info_hash
unfolding query_args insert get_str as_bytes
hash_at own_id info_hash = refl

module _ (own_id info_hash token : List ℕ) (port : ℕ) where
  announce_args : BValue
  announce_args = dict (query_args own_id (announce_peer info_hash port token))

  announce_at :
      (bytes_at announce_args "info_hash" ≡ some info_hash)
      × (get_str announce_args "port" ≡ some (int (pos port)))
      × (bytes_at announce_args "token" ≡ some token)
  unfolding announce_args query_args insert get_str as_bytes
  announce_at = (refl, refl, refl)

  decode_announce-args :
      length info_hash ≡ 20
      → port < 2 ^ 16
      → decode_announce announce_args ≡ some (announce_peer info_hash port token)
  unfolding decode_announce as_int
  decode_announce-args long small =
      let (e₁, e₂, e₃) = announce_at in
      let same : port % 2 ^ 16 ≡ port = omega arith in
      rw (array_at-some announce_args "info_hash" info_hash e₁ long, e₂, e₃, decode_announce)
        (ap (λ p. some (announce_peer info_hash p token)) same)

decode_args-query_args :
    (own_id : NodeId) (query : KrpcQuery)
    → IsQuery query
    → decode_args (ascii (query_name own_id query)) (dict (query_args own_id query)) ≡ some query
unfolding decode_args query_name announce_args
decode_args-query_args own_id ping h = refl
decode_args-query_args own_id (find_node target) h =
    let args = dict (query_args own_id (find_node target)) in
    rw (array_at-some args "target" target (target_at own_id target) h, decode_args) refl
decode_args-query_args own_id (get_peers info_hash) h =
    let args = dict (query_args own_id (get_peers info_hash)) in
    rw (array_at-some args "info_hash" info_hash (hash_at own_id info_hash) h, decode_args) refl
decode_args-query_args own_id (announce_peer info_hash port token) h =
    decode_announce-args own_id info_hash token port h.0 h.1

name_utf8 : (own_id : NodeId) (query : KrpcQuery) → is_utf8 (ascii (query_name own_id query)) ≡ true
unfolding is_utf8 query_name
name_utf8 own_id ping = refl
name_utf8 own_id (find_node target) = refl
name_utf8 own_id (get_peers info_hash) = refl
name_utf8 own_id (announce_peer info_hash port token) = refl

decode_query-query_value :
    (own_id : NodeId) (txn_id : List ℕ) (query : KrpcQuery)
    → IsQuery query
    → decode_query (query_value own_id txn_id query) ≡ some query
unfolding decode_query as_str as_bytes
decode_query-query_value own_id txn_id query h =
    rw
      (
        name_at own_id txn_id query,
        name_utf8 own_id query,
        args_at own_id txn_id query,
        decode_query,
      )
      (decode_args-query_args own_id query h)

kind_at :
    (own_id : NodeId) (txn_id : List ℕ) (query : KrpcQuery)
    → (str_at (query_value own_id txn_id query) "y" ≡ some (ascii "q"))
      × (bytes_at (query_value own_id txn_id query) "t" ≡ some txn_id)
unfolding query_value insert get_str as_str as_bytes is_utf8
kind_at own_id txn_id query = (refl, refl)

-- A query arrives as it was sent: whatever is pending at the receiver, `handle_message` takes the
-- bytes that `encode_query` makes of a query for that query, with the id of the sender and the
-- transaction id. The hashes have 20 bytes and the port 16 bits; the message is shorter than 2^63
-- bytes.
pub handle_message-encode_query :
    (s : KrpcSocket) (own_id : NodeId) (txn_id : List ℕ) (query : KrpcQuery) (addr : SocketAddr)
    → length own_id ≡ 20
    → IsQuery query
    → length (encode_query own_id txn_id query) < 2 ^ 63
    → handle_message s (encode_query own_id txn_id query) addr
      ≡ ok (
        s,
        inbound (record { query = query; sender_id = own_id; sender_addr = addr; txn_id = txn_id }),
      )
unfolding handle_message on_value on_query encode_query
handle_message-encode_query s own_id txn_id query addr known h small =
    let (kind, txn) = kind_at own_id txn_id query in
    rw
      (
        decode-encode (query_value own_id txn_id query) (query_value-Fits own_id txn_id query h)
            small,
        handle_message,
        kind,
        txn,
        on_value,
        decode_query-query_value own_id txn_id query h,
        on_query,
        sender_of-query_value own_id txn_id query known,
      )
      refl
