-- ===== src/Peer/Manager/Bounds.antt =====
-- src/peer/manager.rs: the limits of the pool.
use moviehouse.Prelude.{
  ℕ, ◌+◌, ◌≤◌, ◌≡◌, refl, arith, List, [], ◌∷◌, Bool, true, false, ◌||◌, leb, ◌==◌, ==_iff,
  if◌then◌else◌, length, Option-cases, Bool-cases, le_or_lt, inl, inr,
}
use moviehouse.Prelude.Assoc.{
  find, contains_key, contains_key-put, contains_key-remove, find-contains_key, length-put,
  length-put_present, length-remove,
}
use moviehouse.Peer.Manager.{
  PeerState, PeerManager, PeerEvent, new, contains, insert, remove_addr, half_open_limit, max_known,
  add_peers, is_busy, requeue_peer, fresh_state, spawn_connection, has_room, connect_loop,
  connect_pending, connected, unchoked, choked, have, bitfield_received, have_all, block_received,
  extended_handshake, metadata_message, pex_peers, disconnected, update_peer, handle_event,
}

contains-insert : (a b : ℕ) (set : List ℕ) → contains b (insert a set) ≡ (a == b || contains b set)
unfolding insert contains
contains-insert a b set = elim (Bool-cases (a == b)) [
  | inl same ↦ let at : a ≡ b = (==_iff a b).0 same in rw at (ground arith)
  | inr other ↦ ground arith
]

length-insert : (a : ℕ) (set : List ℕ) → length (insert a set) ≤ length set + 1
unfolding insert
length-insert a set = ground arith

contains-remove_addr :
    (a b : ℕ) (set : List ℕ)
    → contains b (remove_addr a set) ≡ (if a == b then false else contains b set)
unfolding contains remove_addr
contains-remove_addr a b [] = ground arith
contains-remove_addr a b (c ∷ set) = ground (arith, contains-remove_addr a b set)

length-remove_addr : (a : ℕ) (set : List ℕ) → length (remove_addr a set) ≤ length set
unfolding remove_addr
length-remove_addr a [] = omega arith
length-remove_addr a (c ∷ set) = ground (arith, length-remove_addr a set)

-- The limits, and that every address to which a connection is being made has its entry.
pub record Bounded (m : PeerManager) : Type 0 where
  pub few_peers : length m.peers ≤ m.max_peers
  pub few_connecting : length m.connecting ≤ half_open_limit
  pub few_known : length m.known_addrs ≤ max_known
  pub listed : (a : ℕ) → contains a m.connecting ≡ true → contains_key a m.peers ≡ true

spawn_connection-Bounded :
    (addr : ℕ) (m : PeerManager) → Bounded m → has_room m ≡ true → Bounded (spawn_connection addr m)
unfolding spawn_connection has_room
spawn_connection-Bounded addr m b room = record {
  few_peers = ground (arith, length-put addr fresh_state m.peers);
  few_connecting = ground (arith, length-insert addr m.connecting);
  few_known = b.few_known;
  listed = λ a on. ground (
    arith,
    contains-insert addr a m.connecting,
    contains_key-put addr a fresh_state m.peers,
    b.listed a,
  );
}

connect_loop-Bounded :
    (pending : List ℕ) (m : PeerManager) → Bounded m → Bounded (connect_loop pending m)
unfolding connect_loop
connect_loop-Bounded [] m b = record {
  few_peers = b.few_peers;
  few_connecting = b.few_connecting;
  few_known = b.few_known;
  listed = b.listed;
}
connect_loop-Bounded (addr ∷ pending) m b = elim (Bool-cases (has_room m)) [
  | inr full ↦ rw full (record {
    few_peers = b.few_peers;
    few_connecting = b.few_connecting;
    few_known = b.few_known;
    listed = b.listed;
  })
  | inl room ↦ rw room (elim (Bool-cases (is_busy addr m)) [
    | inl busy ↦ rw busy (connect_loop-Bounded pending m b)
    | inr idle ↦ rw idle (
        connect_loop-Bounded pending (spawn_connection addr m)
          (spawn_connection-Bounded addr m b room))
  ])
]

pub add_peers-Bounded : (addrs : List ℕ) (m : PeerManager) → Bounded m → Bounded (add_peers addrs m)
unfolding add_peers
add_peers-Bounded [] m b = b
add_peers-Bounded (addr ∷ addrs) m b = elim (le_or_lt max_known (length m.known_addrs)) [
  | inl full ↦ let e : leb max_known (length m.known_addrs) ≡ true = ground arith in rw e b
  | inr room ↦
      let e : leb max_known (length m.known_addrs) ≡ false = ground arith in
      rw e (elim (Bool-cases (contains addr m.known_addrs)) [
        | inl known ↦ rw known (add_peers-Bounded addrs m b)
        | inr unknown ↦ rw unknown (
            add_peers-Bounded addrs _ (record {
              few_peers = b.few_peers;
              few_connecting = b.few_connecting;
              few_known = omega (arith, length-insert addr m.known_addrs);
              listed = b.listed;
            }))
      ])
]

pub requeue_peer-Bounded : (addr : ℕ) (m : PeerManager) → Bounded m → Bounded (requeue_peer addr m)
unfolding requeue_peer
requeue_peer-Bounded addr m b = elim (Bool-cases (is_busy addr m)) [
  | inl busy ↦ rw busy b
  | inr idle ↦ rw idle (record {
    few_peers = b.few_peers;
    few_connecting = b.few_connecting;
    few_known = b.few_known;
    listed = b.listed;
  })
]

pub update_peer-Bounded :
    (addr : ℕ) (f : PeerState → PeerState) (m : PeerManager)
    → Bounded m
    → Bounded (update_peer addr f m)
unfolding update_peer
update_peer-Bounded addr f m b = elim (Option-cases (find addr m.peers)) [
  | inl gone ↦ rw (gone, update_peer) b
  | inr (s, e) ↦
      rw (e, update_peer)
        (record {
          few_peers = omega (
            arith,
            b.few_peers,
            length-put_present addr (f s) m.peers (find-contains_key addr m.peers e),
          );
          few_connecting = b.few_connecting;
          few_known = b.few_known;
          listed = λ a on. ground (arith, contains_key-put addr a (f s) m.peers, b.listed a on);
        })
]

connected-Bounded :
    (addr : ℕ) (m : PeerManager)
    → Bounded m
    → Bounded (record m { connecting = remove_addr addr m.connecting })
connected-Bounded addr m b = record {
  few_peers = b.few_peers;
  few_connecting = omega (arith, b.few_connecting, length-remove_addr addr m.connecting);
  few_known = b.few_known;
  listed = λ a on. ground (arith, contains-remove_addr addr a m.connecting, b.listed a);
}

pub handle_event-Bounded :
    (addr : ℕ) (event : PeerEvent) (m : PeerManager)
    → Bounded m
    → Bounded (handle_event addr event m)
unfolding handle_event
handle_event-Bounded addr (connected supports) m b =
    update_peer-Bounded addr _ _ (connected-Bounded addr m b)
handle_event-Bounded addr unchoked m b = update_peer-Bounded addr _ m b
handle_event-Bounded addr choked m b = update_peer-Bounded addr _ m b
handle_event-Bounded addr (block_received piece offset bytes) m b = update_peer-Bounded addr _ m b
handle_event-Bounded addr disconnected m b = record {
  few_peers = omega (arith, b.few_peers, length-remove addr m.peers);
  few_connecting = omega (arith, b.few_connecting, length-remove_addr addr m.connecting);
  few_known = b.few_known;
  listed = λ a on. ground (
    arith,
    contains-remove_addr addr a m.connecting,
    contains_key-remove addr a m.peers,
    b.listed a,
  );
}
handle_event-Bounded addr (have _) m b = b
handle_event-Bounded addr (bitfield_received _) m b = b
handle_event-Bounded addr have_all m b = b
handle_event-Bounded addr extended_handshake m b = b
handle_event-Bounded addr metadata_message m b = b
handle_event-Bounded addr (pex_peers _) m b = b

pub new-Bounded : (max_peers : ℕ) → Bounded (new max_peers)
unfolding new contains
new-Bounded max_peers = record {
  few_peers = omega arith;
  few_connecting = omega arith;
  few_known = omega arith;
  listed = λ a on. cc;
}

pub connect_pending-Bounded : (m : PeerManager) → Bounded m → Bounded (connect_pending m)
unfolding connect_pending
connect_pending-Bounded m b = connect_loop-Bounded m.pending_peers m b

-- The states of the pool under the calls of the session, in any order.
pub data Reachable : PeerManager → Type 0 where
  started : (max_peers : ℕ) → Reachable (new max_peers)
  added : (m : PeerManager) (addrs : List ℕ) → Reachable m → Reachable (add_peers addrs m)
  requeued : (m : PeerManager) (addr : ℕ) → Reachable m → Reachable (requeue_peer addr m)
  tried : (m : PeerManager) → Reachable m → Reachable (connect_pending m)
  handled :
      (m : PeerManager) (addr : ℕ) (event : PeerEvent)
      → Reachable m
      → Reachable (handle_event addr event m)

-- In every state that the pool reaches, it has at most as many peers as it may have, makes at most
-- 20 connections at a time and knows at most 10000 addresses, and each address to which a connection
-- is being made has its entry among the peers.
pub Reachable-Bounded : (m : PeerManager) → Reachable m → Bounded m
Reachable-Bounded m (started n) = new-Bounded n
Reachable-Bounded m (added m₀ addrs r) = add_peers-Bounded addrs m₀ (Reachable-Bounded m₀ r)
Reachable-Bounded m (requeued m₀ addr r) = requeue_peer-Bounded addr m₀ (Reachable-Bounded m₀ r)
Reachable-Bounded m (tried m₀ r) = connect_pending-Bounded m₀ (Reachable-Bounded m₀ r)
Reachable-Bounded m (handled m₀ addr event r) =
    handle_event-Bounded addr event m₀ (Reachable-Bounded m₀ r)

-- Is the address waiting, or has it an entry or a connection?
abbrev pub is_kept : ℕ → PeerManager → Bool
is_kept a m = contains a m.pending_peers || is_busy a m

is_busy-spawn_connection :
    (addr a : ℕ) (m : PeerManager)
    → is_busy a (spawn_connection addr m) ≡ (addr == a || is_busy a m)
unfolding is_busy spawn_connection
is_busy-spawn_connection addr a m =
    ground (arith, contains_key-put addr a fresh_state m.peers, contains-insert addr a m.connecting)

is_kept-connect_loop :
    (a : ℕ) (pending : List ℕ) (m : PeerManager)
    → (contains a pending || is_busy a m) ≡ true
    → is_kept a (connect_loop pending m) ≡ true
unfolding connect_loop contains is_busy
is_kept-connect_loop a [] m h = ground arith
is_kept-connect_loop a (addr ∷ pending) m h = elim (Bool-cases (has_room m)) [
  | inr full ↦ rw full h
  | inl room ↦ rw room (elim (Bool-cases (is_busy addr m)) [
    | inl busy ↦ rw busy (
        is_kept-connect_loop a pending m (elim (Bool-cases (addr == a)) [
          | inl same ↦ let at : addr ≡ a = (==_iff addr a).0 same in rw (← at) (ground arith)
          | inr other ↦ ground arith
        ]))
    | inr idle ↦ rw idle (
        is_kept-connect_loop a pending (spawn_connection addr m)
          (ground (arith, is_busy-spawn_connection addr a m)))
  ])
]

connect_loop-stops :
    (pending : List ℕ) (m : PeerManager)
    → has_room (connect_loop pending m) ≡ true
    → (connect_loop pending m).pending_peers ≡ []
unfolding connect_loop has_room
connect_loop-stops [] m h = refl
connect_loop-stops (addr ∷ pending) m h = elim (Bool-cases (has_room m)) [
  | inr full ↦ absurd (cc (full, (rw full at h)))
  | inl room ↦ rw room (elim (Bool-cases (is_busy addr m)) [
    | inl busy ↦ rw busy (connect_loop-stops pending m (rw (room, busy) at h))
    | inr idle ↦
        rw idle (connect_loop-stops pending (spawn_connection addr m) (rw (room, idle) at h))
  ])
]

-- `connect_pending` forgets no address: whoever waited is afterwards waiting still, or has an entry
-- among the peers or a connection that is being made. While there is room for another connection,
-- nobody is left waiting, so that all who waited have one of the two.
pub connect_pending-keeps :
    (m : PeerManager)
    → ((a : ℕ) → contains a m.pending_peers ≡ true → is_kept a (connect_pending m) ≡ true)
      × (has_room (connect_pending m) ≡ true
          → (a : ℕ) → contains a m.pending_peers ≡ true
          → is_busy a (connect_pending m) ≡ true)
unfolding connect_pending
connect_pending-keeps m = (
  λ a h. is_kept-connect_loop a m.pending_peers m (ground arith),
  λ room a h.
      let none_left : contains a (connect_loop m.pending_peers m).pending_peers ≡ false =
        rw (connect_loop-stops m.pending_peers m room) refl in
      ground (arith, is_kept-connect_loop a m.pending_peers m (ground arith)),
)
