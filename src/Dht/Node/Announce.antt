-- ===== src/Dht/Node/Announce.antt =====
-- src/dht/node.rs: who asked for peers may announce itself.
use moviehouse.Prelude.{
  ℕ, ◌≡◌, refl, ◌∙◌, List, [], ◌∷◌, true, some, eq_bytes, Bool-cases, inl, inr,
}
use moviehouse.Dht.Address.{SocketAddr, ip_of}
use moviehouse.Dht.RoutingTable.{NodeId, RoutingTable, insert_or_update}
use moviehouse.Dht.Token.{generate, verify, rotations, Within, generate-verify}
use moviehouse.Dht.CompactAddrs.{Nodes}
use moviehouse.Dht.KrpcWire.{get_peers, announce_peer, got_peers, announced}
use moviehouse.Dht.Krpc.{InboundQuery}
use moviehouse.Dht.Node.{Node, respond, handle_inbound, Turn, query, tick, turn, turns}

own_id-insert_or_update :
    (t : RoutingTable) (id : NodeId) (addr : SocketAddr)
    → (insert_or_update t id addr).0.own_id ≡ t.own_id
unfolding insert_or_update
own_id-insert_or_update t id addr = elim (Bool-cases (eq_bytes id t.own_id)) [
  | inl own ↦ rw own refl
  | inr other ↦ rw other refl
]

module _ (sha1 : List ℕ → List ℕ) where
  -- The rotations among the turns.
  abbrev pub ticks : List (Turn sha1) → List (ℕ × List ℕ)
  ticks [] = []
  ticks (query q ∷ ts) = ticks ts
  ticks (tick now secret ∷ ts) = (now, secret) ∷ ticks ts

  tokens-turns :
      (ts : List (Turn sha1)) (n : Node)
      → (turns sha1 ts n).token_manager ≡ rotations (ticks ts) n.token_manager
  unfolding turns rotations handle_inbound
  tokens-turns [] n = refl
  tokens-turns (query q ∷ ts) n = tokens-turns ts (turn sha1 (query q) n)
  tokens-turns (tick now secret ∷ ts) n = tokens-turns ts (turn sha1 (tick now secret) n)

  own_id-turns :
      (ts : List (Turn sha1)) (n : Node)
      → (turns sha1 ts n).routing_table.own_id ≡ n.routing_table.own_id
  unfolding turns handle_inbound
  own_id-turns [] n = refl
  own_id-turns (query q ∷ ts) n =
      own_id-turns ts (turn sha1 (query q) n)
      ∙ own_id-insert_or_update n.routing_table q.sender_id q.sender_addr
  own_id-turns (tick now secret ∷ ts) n = own_id-turns ts (turn sha1 (tick now secret) n)

  -- A peer that got a token for `get_peers` may announce itself with it: from the same address the
  -- announcement is answered, whatever queries of others came in between and whatever secrets were
  -- drawn, if the ticks in between fell within one rotation interval of some moment.
  pub announce_accepted :
      (n : Node) (ask tell : InboundQuery) (hash hash' : List ℕ) (port : ℕ) (token : List ℕ)
      (id : NodeId) (peers : List SocketAddr) (nodes : Nodes) (ts : List (Turn sha1)) (t : ℕ)
      → ask.query ≡ get_peers hash
      → (handle_inbound sha1 n ask).1 ≡ some (got_peers id (some token) peers nodes)
      → tell.query ≡ announce_peer hash' port token
      → ip_of tell.sender_addr ≡ ip_of ask.sender_addr
      → Within t n.token_manager.rotation_interval (ticks ts)
      → (handle_inbound sha1 (turns sha1 ts (handle_inbound sha1 n ask).0) tell).1
        ≡ some (announced n.routing_table.own_id)
  unfolding handle_inbound
  announce_accepted n ask tell hash hash' port token id peers nodes ts t asked answer told same
        within =
      let n₁ = (handle_inbound sha1 n ask).0 in
      let n₂ = turns sha1 ts n₁ in
      let given : generate sha1 n.token_manager (ip_of ask.sender_addr) ≡ token =
        cc (rw (asked, respond) at answer) in
      let valid =
        generate-verify sha1 n.token_manager (ip_of ask.sender_addr) t (ticks ts) within in
      let accepted : verify sha1 n₂.token_manager (ip_of tell.sender_addr) token ≡ true =
        rw (tokens-turns ts n₁, same, ← given) valid in
      let owned =
        own_id-insert_or_update n₂.routing_table tell.sender_id tell.sender_addr
        ∙ own_id-turns ts n₁
        ∙ own_id-insert_or_update n.routing_table ask.sender_id ask.sender_addr in
      rw (told, respond, accepted, owned) refl
