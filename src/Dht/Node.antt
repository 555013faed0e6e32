-- ===== src/Dht/Node.antt =====
-- src/dht/node.rs: `handle_inbound`, which answers the queries of other nodes, and the rotation of
-- the secrets. An answer is what is returned.
pub mod Announce
use moviehouse.Prelude.{ℕ, List, [], ◌∷◌, Option, none, some, if◌then◌else◌}
use moviehouse.Dht.Address.{SocketAddr, ip_of}
use moviehouse.Dht.RoutingTable.{NodeId, NodeEntry, RoutingTable, insert_or_update, closest_nodes}
use moviehouse.Dht.Token.{TokenManager, generate, verify, maybe_rotate}
use moviehouse.Dht.CompactAddrs.{Nodes}
use moviehouse.Dht.KrpcWire.{
  KrpcQuery, ping, find_node, get_peers, announce_peer, KrpcResponse, pinged, found_node, got_peers,
  announced,
}
use moviehouse.Dht.Krpc.{InboundQuery}

pub record Node : Type 0 where
  pub routing_table : RoutingTable
  pub token_manager : TokenManager

-- `(n.id, n.addr)` of each entry
abbrev pub contacts : List NodeEntry → Nodes
contacts [] = []
contacts (n ∷ nodes) = (n.id, n.addr) ∷ contacts nodes

module _ (sha1 : List ℕ → List ℕ) where
  -- The answer to a query, when the sender is in the table.
  unfoldable pub respond : Node → SocketAddr → KrpcQuery → Option KrpcResponse
  unfolding closest_nodes generate verify
  respond n addr ping = some (pinged n.routing_table.own_id)
  respond n addr (find_node target) =
      some (found_node n.routing_table.own_id (contacts (closest_nodes n.routing_table target 8)))
  respond n addr (get_peers info_hash) = some (
      got_peers n.routing_table.own_id (some (generate sha1 n.token_manager (ip_of addr))) []
        (contacts (closest_nodes n.routing_table info_hash 8)))
  respond n addr (announce_peer info_hash port token) =
      if verify sha1 n.token_manager (ip_of addr) token
      then some (announced n.routing_table.own_id)
      else none

  unfoldable pub handle_inbound : Node → InboundQuery → Node × Option KrpcResponse
  unfolding respond
  handle_inbound n q =
      let n' = record n {
        routing_table = (insert_or_update n.routing_table q.sender_id q.sender_addr).0;
      } in
      (n', respond n' q.sender_addr q.query)

  -- The turns of the loop that change the node: a query, or a tick of the rotation.
  pub data Turn : Type 0 where
    query : InboundQuery → Turn
    tick : ℕ → List ℕ → Turn

  unfoldable pub turn : Turn → Node → Node
  unfolding handle_inbound
  turn (query q) n = (handle_inbound n q).0
  turn (tick now secret) n = record n { token_manager = maybe_rotate now secret n.token_manager }

  unfoldable pub turns : List Turn → Node → Node
  unfolding turn
  turns [] n = n
  turns (t ∷ ts) n = turns ts (turn t n)
