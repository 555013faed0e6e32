-- ===== src/Examples/Dht.antt =====
-- src/dht/: the theorems on the DHT, at a table of two nodes and at small messages.
use moviehouse.Prelude.{
  ℕ, ◌^◌, ◌<◌, ◌≡◌, refl, List, [], ◌∷◌, ◌++◌, some, ok, length, min, replicate, arith,
}
use mathlib.Core.List.{Permᴰ}
use moviehouse.Prelude.Assoc.{find, remove}
use moviehouse.Dht.Address.{SocketAddr, v4, v6}
use moviehouse.Dht.RoutingTable.{
  NodeId, NodeEntry, RoutingTable, new, insert_or_update, mark_failed, closest_nodes, all_nodes,
}
use moviehouse.Dht.RoutingTable.Bounds.{started, added, given_up, IsTable, Reachable-IsTable}
use moviehouse.Dht.RoutingTable.Closest.{Ordered, closest_nodes-Closest}
use moviehouse.Dht.Token.{generate}
use moviehouse.Dht.KrpcWire.{
  get_peers, announce_peer, KrpcResponse, got_peers, announced, encode_query, encode_response,
}
use moviehouse.Dht.Krpc.{InboundQuery, KrpcSocket, inbound, answer, handle_message}
use moviehouse.Dht.Krpc.RoundTrip.{handle_message-encode_query}
use moviehouse.Dht.Krpc.Answers.{arrives, handle_message-encode_response}
use moviehouse.Dht.Node.{Node, respond, handle_inbound, contacts, tick, turns}
use moviehouse.Dht.Node.Announce.{announce_accepted}

abbrev own : NodeId
own = replicate 20 0

abbrev far : NodeId
far = replicate 20 200

abbrev near : NodeId
near = replicate 20 1

abbrev home : SocketAddr
home = v4 (127 ∷ 0 ∷ 0 ∷ 1 ∷ []) 6_881

abbrev table : RoutingTable
table = mark_failed (insert_or_update (insert_or_update (new own) far home).0 near home).0 far

Reachable-IsTable_example : IsTable table
Reachable-IsTable_example =
    Reachable-IsTable table (given_up _ far (added _ near home (added _ far home (started own))))

closest_nodes-Closest_example :
    (others : List NodeEntry) × Permᴰ
      (all_nodes table.buckets)
      (closest_nodes table far 1 ++ others)
    × Ordered far (closest_nodes table far 1 ++ others)
    × (length (closest_nodes table far 1) ≡ min 1 (length (all_nodes table.buckets)))
closest_nodes-Closest_example = closest_nodes-Closest table far 1

-- A hash that is the data itself.
abbrev same : List ℕ → List ℕ
same raw = raw

abbrev node : Node
node = record {
  routing_table = table;
  token_manager = record {
    current_secret = 5 ∷ [];
    previous_secret = 6 ∷ [];
    last_rotation = 0;
    rotation_interval = 300;
  };
}

abbrev ask : InboundQuery
ask = record { query = get_peers far; sender_id = near; sender_addr = home; txn_id = 1 ∷ 2 ∷ [] }

abbrev token : List ℕ
token = 127 ∷ 0 ∷ 0 ∷ 1 ∷ 5 ∷ []

abbrev tell : InboundQuery
tell = record ask { query = announce_peer far 6_881 token }

-- A rotation in between.
announce_accepted_example :
    (handle_inbound same
      (turns same (tick 400 (7 ∷ []) ∷ []) (handle_inbound same node ask).0)
      tell).1
    ≡ some (announced own)
unfolding respond handle_inbound generate insert_or_update mark_failed
    moviehouse.Dht.RoutingTable.update_in new
announce_accepted_example =
    announce_accepted same node ask tell far far 6_881 token own []
      (contacts (closest_nodes (insert_or_update table near home).0 far 8)) (tick 400 (7 ∷ []) ∷ [])
      400 refl refl refl refl ((omega arith, omega arith), tt)

abbrev socket : KrpcSocket
socket = record { own_id = own; pending = (258, 3) ∷ [] }

abbrev txn : List ℕ
txn = 1 ∷ 2 ∷ []

query_short : length (encode_query near txn tell.query) < 2 ^ 63
unfolding encode_query moviehouse.Bencode.Encode.encode moviehouse.Bencode.Value.insert
    moviehouse.Bencode.Encode.encode_bytes moviehouse.Bencode.Decimal.decimal
    moviehouse.Bencode.Decimal.decimal_int
query_short = omega arith

handle_message-encode_query_example :
    handle_message socket (encode_query near txn tell.query) home
    ≡ ok (
      socket,
      inbound (record { query = tell.query; sender_id = near; sender_addr = home; txn_id = txn }),
    )
handle_message-encode_query_example =
    handle_message-encode_query socket near txn tell.query home refl (refl, omega arith) query_short

-- One of the two nodes has an address that is not written.
abbrev reply : KrpcResponse
reply = got_peers near (some token) (home ∷ []) ((far, home) ∷ (own, v6 (replicate 16 1) 80) ∷ [])

reply_short : length (encode_response near txn reply) < 2 ^ 63
unfolding encode_response moviehouse.Bencode.Encode.encode moviehouse.Bencode.Value.insert
    moviehouse.Bencode.Encode.encode_bytes moviehouse.Bencode.Decimal.decimal
reply_short = omega arith

handle_message-encode_response_example :
    handle_message socket (encode_response near txn reply) home
    ≡ ok (record socket { pending = remove 258 socket.pending }, answer 3 (arrives near reply))
unfolding find
handle_message-encode_response_example =
    handle_message-encode_response socket near 1 2 3 reply home refl
      (((refl, omega arith), tt), omega arith, (refl, (refl, omega arith), (refl, tt, tt))) refl
      reply_short
