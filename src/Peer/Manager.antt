-- ===== src/Peer/Manager.antt =====
-- src/peer/manager.rs: the pool of peers. An address is a number, as addresses are only compared.
-- `connecting` and `known_addrs` are sets: lists without repetition. The channels, the clock and the
-- floating point fields of a peer are left out.
pub mod Bounds
pub mod Asked
use moviehouse.Prelude.{
  ℕ, zero, suc, ◌+◌, List, [], ◌∷◌, ◌++◌, Bool, true, false, not, ◌&&◌, ◌||◌, leb, ltb, ◌==◌,
  if◌then◌else◌, length, Option, none, some, map,
}
use moviehouse.Prelude.Assoc.{find, put, remove, contains_key}

abbrev pub half_open_limit : ℕ
half_open_limit = 20

pub record PeerState : Type 0 where
  pub am_interested : Bool
  pub peer_choking : Bool
  pub bytes_downloaded : ℕ
  pub outstanding_requests : ℕ
  pub supports_extensions : Bool

pub record PeerManager : Type 0 where
  pub max_peers : ℕ
  pub peers : List (ℕ × PeerState)
  pub pending_peers : List ℕ
  pub known_addrs : List ℕ
  pub connecting : List ℕ

unfoldable pub new : ℕ → PeerManager
new max_peers = record {
  max_peers = max_peers;
  peers = [];
  pending_peers = [];
  known_addrs = [];
  connecting = [];
}

-- `set.contains(&addr)`
unfoldable pub contains : ℕ → List ℕ → Bool
contains a [] = false
contains a (b ∷ set) = b == a || contains a set

-- `set.insert(addr)` and `set.remove(&addr)`
unfoldable pub insert : ℕ → List ℕ → List ℕ
unfolding contains
insert a set = if contains a set then set else a ∷ set

unfoldable pub remove_addr : ℕ → List ℕ → List ℕ
remove_addr a [] = []
remove_addr a (b ∷ set) = let rest = remove_addr a set in if b == a then rest else b ∷ rest

abbrev pub max_known : ℕ
max_known = 10_000

unfoldable pub add_peers : List ℕ → PeerManager → PeerManager
add_peers [] m = m
add_peers (addr ∷ addrs) m =
    if leb max_known (length m.known_addrs)
    then m
    else add_peers addrs (
        if contains addr m.known_addrs then m else record m {
          known_addrs = insert addr m.known_addrs;
          pending_peers = m.pending_peers ++ addr ∷ [];
        })

unfoldable pub is_busy : ℕ → PeerManager → Bool
is_busy addr m = contains_key addr m.peers || contains addr m.connecting

unfoldable pub requeue_peer : ℕ → PeerManager → PeerManager
unfolding is_busy
requeue_peer addr m =
    if is_busy addr m then m else record m { pending_peers = m.pending_peers ++ addr ∷ [] }

abbrev pub fresh_state : PeerState
fresh_state = record {
  am_interested = false;
  peer_choking = true;
  bytes_downloaded = 0;
  outstanding_requests = 0;
  supports_extensions = false;
}

unfoldable pub spawn_connection : ℕ → PeerManager → PeerManager
unfolding insert
spawn_connection addr m = record m {
  connecting = insert addr m.connecting;
  peers = put addr fresh_state m.peers;
}

-- The condition of the `while` loop of `connect_pending`.
unfoldable pub has_room : PeerManager → Bool
has_room m =
    ltb (length m.peers + length m.connecting) m.max_peers
    && ltb (length m.connecting) half_open_limit

-- The loop takes one address of the queue in each turn.
unfoldable pub connect_loop : List ℕ → PeerManager → PeerManager
unfolding is_busy spawn_connection has_room
connect_loop [] m = record m { pending_peers = [] }
connect_loop (addr ∷ pending) m =
    if has_room m
    then connect_loop pending (if is_busy addr m then m else spawn_connection addr m)
    else record m { pending_peers = addr ∷ pending }

unfoldable pub connect_pending : PeerManager → PeerManager
unfolding connect_loop
connect_pending m = connect_loop m.pending_peers m

-- The events of src/peer/connection.rs. What the manager does not look at is left out of them.
pub data PeerEvent : Type 0 where
  connected : Bool → PeerEvent
  unchoked : PeerEvent
  choked : PeerEvent
  have : ℕ → PeerEvent
  bitfield_received : List ℕ → PeerEvent
  have_all : PeerEvent
  block_received : ℕ → ℕ → List ℕ → PeerEvent
  extended_handshake : PeerEvent
  metadata_message : PeerEvent
  pex_peers : List ℕ → PeerEvent
  disconnected : PeerEvent

-- A write through `get_mut`, if the peer is there.
unfoldable pub update_peer : ℕ → (PeerState → PeerState) → PeerManager → PeerManager
update_peer addr f m = elim (find addr m.peers) [
  | none ↦ m
  | some s ↦ record m { peers = put addr (f s) m.peers }
]

unfoldable pub handle_event : ℕ → PeerEvent → PeerManager → PeerManager
unfolding update_peer
handle_event addr (connected supports) m =
    update_peer addr (λ s. record s { supports_extensions = supports })
      (record m { connecting = remove_addr addr m.connecting })
handle_event addr unchoked m = update_peer addr (λ s. record s { peer_choking = false }) m
handle_event addr choked m = update_peer addr (λ s. record s { peer_choking = true }) m
handle_event addr (block_received piece offset bytes) m =
    update_peer addr (λ s. record s { bytes_downloaded = s.bytes_downloaded + length bytes }) m
handle_event addr disconnected m = record m {
  peers = remove addr m.peers;
  connecting = remove_addr addr m.connecting;
}
handle_event addr (have _) m = m
handle_event addr (bitfield_received _) m = m
handle_event addr have_all m = m
handle_event addr extended_handshake m = m
handle_event addr metadata_message m = m
handle_event addr (pex_peers _) m = m

unfoldable pub connected_peers : PeerManager → List ℕ
connected_peers m = map (λ (addr, _). addr) m.peers

-- The peers that are unchoked and of interest.
unfoldable pub downloadable_from : List (ℕ × PeerState) → List ℕ
downloadable_from [] = []
downloadable_from ((addr, s) ∷ peers) =
    let rest = downloadable_from peers in
    if s.am_interested && not s.peer_choking then addr ∷ rest else rest

unfoldable pub downloadable_peers : PeerManager → List ℕ
unfolding downloadable_from
downloadable_peers m = downloadable_from m.peers

-- `send_command`: the channel of a peer of the pool may be full (`accepted` is false then).
unfoldable pub send_command : Bool → ℕ → PeerManager → Bool
send_command accepted addr m = contains_key addr m.peers && accepted

-- `peer_count` and `peer_state`
unfoldable pub peer_count : PeerManager → ℕ
peer_count m = length m.peers

unfoldable pub peer_state : ℕ → PeerManager → Option PeerState
peer_state addr m = find addr m.peers
