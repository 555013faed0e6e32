-- ===== src/Dht/Krpc/Answers.antt =====
-- src/dht/krpc.rs: what arrives of a response.
use moviehouse.Prelude.{
  ℕ, ◌^◌, ◌<◌, ◌≤◌, ◌≡◌, refl, ap, arith, List, [], ◌∷◌, ◌++◌, true, Option, none, some, ok,
  is_utf8, length, ascii, ◌==◌, length-append, append-nil,
}
use moviehouse.Prelude.Assoc.{find, remove}
use moviehouse.Bencode.Value.{
  BValue, bytes, dict, no_entries, insert, get_str, as_bytes, as_str, as_list,
}
use moviehouse.Bencode.Decode.{max_depth, max_elements}
use moviehouse.Bencode.RoundTrip.Brackets.{Fits, FitsItems, count}
use moviehouse.Bencode.Whole.{decode-encode}
use moviehouse.Dht.Address.{SocketAddr, v4, v6}
use moviehouse.Dht.RoutingTable.{NodeId}
use moviehouse.Dht.CompactAddrs.{
  Nodes, port_of, port_bytes, addr_of, encode_compact_peer, decode_compact_peer, peer_items,
  peers_of,
}
use moviehouse.Dht.KrpcWire.{
  KrpcResponse, pinged, found_node, got_peers, announced, response_args, encode_response, with_key,
  bytes_at, str_at, nodes_at, values_at, got_something, decode_response,
}
use moviehouse.Dht.Krpc.{KrpcSocket, answer, on_response, on_value, handle_message}
use moviehouse.Dht.Krpc.Compact.{
  IsAddr, AllNodes, AllAddrs, only_v4, only_v4_peers, addr_of-v4,
  decode_compact_nodes-encode_compact_nodes,
}
use moviehouse.Dht.Krpc.RoundTrip.{array_at-some}

-- A response of the program's types, with no more peers than the decoder takes.
abbrev pub IsResponse : KrpcResponse → Type 0
IsResponse (pinged _) = Unit
IsResponse (announced _) = Unit
IsResponse (found_node _ nodes) = AllNodes nodes
IsResponse (got_peers _ _ peers nodes) =
    AllAddrs peers × (length peers ≤ max_elements) × AllNodes nodes

-- What `decode_response` can make of a response: only what is in the dictionary counts, and the id is
-- that of the sender.
abbrev pub arrives : NodeId → KrpcResponse → KrpcResponse
arrives own_id (pinged _) = pinged own_id
arrives own_id (announced _) = pinged own_id
arrives own_id (found_node _ nodes) = got_something own_id none [] (only_v4 nodes)
arrives own_id (got_peers _ token peers nodes) =
    got_something own_id token (only_v4_peers peers) (only_v4 nodes)

count-peer_items : (peers : List SocketAddr) → count (peer_items peers) ≡ length peers
unfolding peer_items
count-peer_items [] = refl
count-peer_items (addr ∷ peers) = omega (arith, count-peer_items peers)

peer_items-Fits : (l : ℕ) (peers : List SocketAddr) → FitsItems l (peer_items peers)
unfolding peer_items Fits FitsItems
peer_items-Fits l [] = tt
peer_items-Fits l (addr ∷ peers) = (tt, peer_items-Fits l peers)

peer_back :
    (ip : List ℕ) (port : ℕ)
    → IsAddr (v4 ip port)
    → decode_compact_peer (ip ++ port_bytes port) ≡ some (v4 ip port)
unfolding decode_compact_peer
peer_back ip port h =
    let raw = ip ++ port_bytes port in
    let six : (length raw == 6) ≡ true = ground (arith, length-append ip (port_bytes port), h.0) in
    let back : addr_of raw ≡ v4 ip port = rw (append-nil raw) at (addr_of-v4 ip port [] h.0 h.1) in
    rw (six, decode_compact_peer) (ap (λ a. some a) back)

peers_of-peer_items :
    (peers : List SocketAddr) → AllAddrs peers → peers_of (peer_items peers) ≡ only_v4_peers peers
unfolding peer_items peers_of only_v4_peers as_bytes encode_compact_peer
peers_of-peer_items [] h = refl
peers_of-peer_items (v6 ip port ∷ peers) h =
    unfold decode_compact_peer in peers_of-peer_items peers h.1
peers_of-peer_items (v4 ip port ∷ peers) h =
    rw (peer_back ip port h.0, peers_of) (ap (λ l. v4 ip port ∷ l) (peers_of-peer_items peers h.1))

response_value : NodeId → List ℕ → KrpcResponse → BValue
response_value own_id txn_id response = dict (
    with_key "r" (dict (response_args own_id response))
      (with_key "y" (bytes (ascii "r")) (with_key "t" (bytes txn_id) no_entries)))

args_Fits :
    (own_id : NodeId) (response : KrpcResponse)
    → IsResponse response
    → Fits 63 (dict (response_args own_id response))
unfolding response_args insert Fits
args_Fits own_id (pinged id) h = ground arith
args_Fits own_id (announced id) h = ground arith
args_Fits own_id (found_node id nodes) h = ground arith
args_Fits own_id (got_peers id none [] []) h = ground arith
args_Fits own_id (got_peers id (some token) [] []) h = ground arith
args_Fits own_id (got_peers id none [] (n ∷ nodes)) h = ground arith
args_Fits own_id (got_peers id (some token) [] (n ∷ nodes)) h = ground arith
args_Fits own_id (got_peers id none (a ∷ peers) []) h =
    ground (arith, peer_items-Fits 61 (a ∷ peers), count-peer_items (a ∷ peers))
args_Fits own_id (got_peers id (some token) (a ∷ peers) []) h =
    ground (arith, peer_items-Fits 61 (a ∷ peers), count-peer_items (a ∷ peers))
args_Fits own_id (got_peers id none (a ∷ peers) (n ∷ nodes)) h =
    ground (arith, peer_items-Fits 61 (a ∷ peers), count-peer_items (a ∷ peers))
args_Fits own_id (got_peers id (some token) (a ∷ peers) (n ∷ nodes)) h =
    ground (arith, peer_items-Fits 61 (a ∷ peers), count-peer_items (a ∷ peers))

-- What the receiver finds in the dictionary of a response.
record Found (own_id : NodeId) (response : KrpcResponse) (token : Option (List ℕ))
    (peers : List SocketAddr) (nodes : Nodes) : Type 0 where
  id_there : bytes_at (dict (response_args own_id response)) "id" ≡ some own_id
  token_there : bytes_at (dict (response_args own_id response)) "token" ≡ token
  peers_there : values_at (dict (response_args own_id response)) ≡ peers
  nodes_there : nodes_at (dict (response_args own_id response)) ≡ nodes

pinged-Found : (own_id id : NodeId) → Found own_id (pinged id) none [] []
unfolding response_args insert get_str as_bytes as_list
pinged-Found own_id id = record {
  id_there = refl;
  token_there = refl;
  peers_there = refl;
  nodes_there = refl;
}

announced-Found : (own_id id : NodeId) → Found own_id (announced id) none [] []
unfolding response_args insert get_str as_bytes as_list
announced-Found own_id id = record {
  id_there = refl;
  token_there = refl;
  peers_there = refl;
  nodes_there = refl;
}

found_node-Found :
    (own_id id : NodeId) (nodes : Nodes)
    → AllNodes nodes
    → Found own_id (found_node id nodes) none [] (only_v4 nodes)
unfolding response_args insert get_str as_bytes as_list
found_node-Found own_id id nodes h = record {
  id_there = refl;
  token_there = refl;
  peers_there = refl;
  nodes_there = decode_compact_nodes-encode_compact_nodes nodes h;
}

got_peers-Found :
    (own_id id : NodeId) (token : Option (List ℕ)) (peers : List SocketAddr) (nodes : Nodes)
    → AllAddrs peers
    → AllNodes nodes
    → Found own_id (got_peers id token peers nodes) token (only_v4_peers peers) (only_v4 nodes)
unfolding response_args insert get_str as_bytes as_list only_v4_peers only_v4
got_peers-Found own_id id none [] [] a h = record {
  id_there = refl;
  token_there = refl;
  peers_there = refl;
  nodes_there = refl;
}
got_peers-Found own_id id (some token) [] [] a h = record {
  id_there = refl;
  token_there = refl;
  peers_there = refl;
  nodes_there = refl;
}
got_peers-Found own_id id none [] (n ∷ nodes) a h = record {
  id_there = refl;
  token_there = refl;
  peers_there = refl;
  nodes_there = decode_compact_nodes-encode_compact_nodes (n ∷ nodes) h;
}
got_peers-Found own_id id (some token) [] (n ∷ nodes) a h = record {
  id_there = refl;
  token_there = refl;
  peers_there = refl;
  nodes_there = decode_compact_nodes-encode_compact_nodes (n ∷ nodes) h;
}
got_peers-Found own_id id none (p ∷ peers) [] a h = record {
  id_there = refl;
  token_there = refl;
  peers_there = peers_of-peer_items (p ∷ peers) a;
  nodes_there = refl;
}
got_peers-Found own_id id (some token) (p ∷ peers) [] a h = record {
  id_there = refl;
  token_there = refl;
  peers_there = peers_of-peer_items (p ∷ peers) a;
  nodes_there = refl;
}
got_peers-Found own_id id none (p ∷ peers) (n ∷ nodes) a h = record {
  id_there = refl;
  token_there = refl;
  peers_there = peers_of-peer_items (p ∷ peers) a;
  nodes_there = decode_compact_nodes-encode_compact_nodes (n ∷ nodes) h;
}
got_peers-Found own_id id (some token) (p ∷ peers) (n ∷ nodes) a h = record {
  id_there = refl;
  token_there = refl;
  peers_there = peers_of-peer_items (p ∷ peers) a;
  nodes_there = decode_compact_nodes-encode_compact_nodes (n ∷ nodes) h;
}

module _ (own_id : NodeId) (txn_id : List ℕ) (response : KrpcResponse) where
  response_at :
      (get_str (response_value own_id txn_id response) "r"
        ≡ some (dict (response_args own_id response)))
      × (str_at (response_value own_id txn_id response) "y" ≡ some (ascii "r"))
      × (bytes_at (response_value own_id txn_id response) "t" ≡ some txn_id)
  unfolding response_value insert get_str as_bytes as_str is_utf8
  response_at = (refl, refl, refl)

  response_Fits : IsResponse response → Fits max_depth (response_value own_id txn_id response)
  unfolding response_value insert Fits
  response_Fits h = ground (arith, args_Fits own_id response h)

  decode-Found :
      (token : Option (List ℕ)) (peers : List SocketAddr) (nodes : Nodes)
      → length own_id ≡ 20
      → Found own_id response token peers nodes
      → decode_response (response_value own_id txn_id response)
        ≡ some (got_something own_id token peers nodes)
  unfolding decode_response
  decode-Found token peers nodes known f =
      let r = dict (response_args own_id response) in
      rw
        (
          response_at.0,
          array_at-some r "id" own_id f.id_there known,
          f.token_there,
          f.peers_there,
          f.nodes_there,
          decode_response,
        )
        refl

decode_response-arrives :
    (own_id : NodeId) (txn_id : List ℕ) (response : KrpcResponse)
    → length own_id ≡ 20
    → IsResponse response
    → decode_response (response_value own_id txn_id response) ≡ some (arrives own_id response)
decode_response-arrives own_id txn_id (pinged id) known h =
    decode-Found own_id txn_id (pinged id) none [] [] known (pinged-Found own_id id)
decode_response-arrives own_id txn_id (announced id) known h =
    decode-Found own_id txn_id (announced id) none [] [] known (announced-Found own_id id)
decode_response-arrives own_id txn_id (found_node id nodes) known h =
    decode-Found own_id txn_id (found_node id nodes) none [] (only_v4 nodes) known
      (found_node-Found own_id id nodes h)
decode_response-arrives own_id txn_id (got_peers id token peers nodes) known h =
    decode-Found own_id txn_id (got_peers id token peers nodes) token (only_v4_peers peers)
      (only_v4 nodes) known (got_peers-Found own_id id token peers nodes h.0 h.2)

-- A response arrives at the one who waits for it, once: the entry of its transaction id is taken out
-- of `pending`. What arrives is the token, the peers and the nodes whose addresses have four bytes, as
-- a response to `get_peers`, or as one to `ping` when there are none of them, whatever the
-- response was. Hashes have 20 bytes, ports 16 bits, the peers are no more than the decoder of lists
-- takes, and the message is shorter than 2^63 bytes.
pub handle_message-encode_response :
    (s : KrpcSocket) (own_id : NodeId) (high low waiting : ℕ) (response : KrpcResponse)
    (addr : SocketAddr)
    → length own_id ≡ 20
    → IsResponse response
    → find (port_of high low) s.pending ≡ some waiting
    → length (encode_response own_id (high ∷ low ∷ []) response) < 2 ^ 63
    → handle_message s (encode_response own_id (high ∷ low ∷ []) response) addr
      ≡ ok (
        record s { pending = remove (port_of high low) s.pending },
        answer waiting (arrives own_id response),
      )
unfolding handle_message on_value on_response encode_response response_value
handle_message-encode_response s own_id high low waiting response addr known h there small =
    let txn_id = high ∷ low ∷ [] in
    let (_, kind, txn) = response_at own_id txn_id response in
    rw
      (
        decode-encode (response_value own_id txn_id response)
            (response_Fits own_id txn_id response h) small,
        handle_message,
        kind,
        txn,
        on_value,
        there,
        on_response,
        decode_response-arrives own_id txn_id response known h,
      )
      refl
