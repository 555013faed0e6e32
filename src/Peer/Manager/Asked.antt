-- ===== src/Peer/Manager/Asked.antt =====
-- src/peer/manager.rs: the numbers of outstanding requests, under the operations of the pool.
use moviehouse.Prelude.{
  ℕ, ◌≤◌, ◌≡◌, arith, List, [], ◌∷◌, some, leb, ◌==◌, length, Option-cases, Bool-cases, inl, inr,
}
use moviehouse.Prelude.Assoc.{find, put, remove, find-put, find-remove}
use moviehouse.Peer.Manager.{
  PeerState, PeerManager, PeerEvent, new, contains, max_known, add_peers, is_busy, requeue_peer,
  fresh_state, spawn_connection, has_room, connect_loop, connect_pending, connected, unchoked,
  choked, have, bitfield_received, have_all, block_received, extended_handshake, metadata_message,
  pex_peers, disconnected, update_peer, handle_event, remove_addr,
}

-- No peer of the list has more than so many requests outstanding.
abbrev pub AtMost : ℕ → List (ℕ × PeerState) → Type 0
AtMost cap peers =
    (addr : ℕ) (st : PeerState) → find addr peers ≡ some st → st.outstanding_requests ≤ cap

module _ (cap : ℕ) where
  AtMost-put :
      (peers : List (ℕ × PeerState)) (addr : ℕ) (st : PeerState)
      → st.outstanding_requests ≤ cap
      → AtMost cap peers
      → AtMost cap (put addr st peers)
  AtMost-put peers addr st few h j st' e = elim (Bool-cases (addr == j)) [
    | inl same ↦
        let at : st ≡ st' = cc (e, (rw same at (find-put addr j st peers))) in rw (← at) few
    | inr other ↦ h j st' (cc (e, (rw other at (find-put addr j st peers))))
  ]

  AtMost-remove :
      (peers : List (ℕ × PeerState)) (addr : ℕ) → AtMost cap peers → AtMost cap (remove addr peers)
  AtMost-remove peers addr h j st e = elim (Bool-cases (addr == j)) [
    | inl same ↦ absurd (cc (e, (rw same at (find-remove addr j peers))))
    | inr other ↦ h j st (cc (e, (rw other at (find-remove addr j peers))))
  ]

  pub update_peer-AtMost :
      (addr : ℕ) (f : PeerState → PeerState) (m : PeerManager)
      → ((st : PeerState)
          → find addr m.peers ≡ some st
          → st.outstanding_requests ≤ cap
          → (f st).outstanding_requests ≤ cap)
      → AtMost cap m.peers
      → AtMost cap (update_peer addr f m).peers
  unfolding update_peer
  update_peer-AtMost addr f m k h = elim (Option-cases (find addr m.peers)) [
    | inl gone ↦ rw (gone, update_peer) h
    | inr (st, e) ↦ rw (e, update_peer) (AtMost-put m.peers addr (f st) (k st e (h addr st e)) h)
  ]

  pub new-AtMost : (max_peers : ℕ) → AtMost cap (new max_peers).peers
  unfolding new find
  new-AtMost max_peers addr st e = absurd (cc e)

  connect_loop-AtMost :
      (pending : List ℕ) (m : PeerManager)
      → AtMost cap m.peers
      → AtMost cap (connect_loop pending m).peers
  unfolding connect_loop spawn_connection
  connect_loop-AtMost [] m h = h
  connect_loop-AtMost (addr ∷ pending) m h = elim (Bool-cases (has_room m)) [
    | inr full ↦ rw full h
    | inl room ↦ rw room (elim (Bool-cases (is_busy addr m)) [
      | inl busy ↦ rw busy (connect_loop-AtMost pending m h)
      | inr idle ↦ rw idle (
          connect_loop-AtMost pending (spawn_connection addr m)
            (AtMost-put m.peers addr fresh_state (omega arith) h))
    ])
  ]

  pub connect_pending-AtMost :
      (m : PeerManager) → AtMost cap m.peers → AtMost cap (connect_pending m).peers
  unfolding connect_pending
  connect_pending-AtMost m h = connect_loop-AtMost m.pending_peers m h

  pub add_peers-AtMost :
      (addrs : List ℕ) (m : PeerManager) → AtMost cap m.peers → AtMost cap (add_peers addrs m).peers
  unfolding add_peers
  add_peers-AtMost [] m h = h
  add_peers-AtMost (addr ∷ addrs) m h = elim (Bool-cases (leb max_known (length m.known_addrs))) [
    | inl full ↦ rw full h
    | inr room ↦ rw room (elim (Bool-cases (contains addr m.known_addrs)) [
      | inl known ↦ rw known (add_peers-AtMost addrs m h)
      | inr unknown ↦ rw unknown (add_peers-AtMost addrs _ h)
    ])
  ]

  pub requeue_peer-AtMost :
      (addr : ℕ) (m : PeerManager) → AtMost cap m.peers → AtMost cap (requeue_peer addr m).peers
  unfolding requeue_peer
  requeue_peer-AtMost addr m h = elim (Bool-cases (is_busy addr m)) [
    | inl busy ↦ rw busy h
    | inr idle ↦ rw idle h
  ]

  pub handle_event-AtMost :
      (addr : ℕ) (event : PeerEvent) (m : PeerManager)
      → AtMost cap m.peers
      → AtMost cap (handle_event addr event m).peers
  unfolding handle_event
  handle_event-AtMost addr (connected supports) m h =
      update_peer-AtMost addr _ (record m { connecting = remove_addr addr m.connecting })
        (λ st e few. few) h
  handle_event-AtMost addr unchoked m h = update_peer-AtMost addr _ m (λ st e few. few) h
  handle_event-AtMost addr choked m h = update_peer-AtMost addr _ m (λ st e few. few) h
  handle_event-AtMost addr (block_received piece offset bytes) m h =
      update_peer-AtMost addr _ m (λ st e few. few) h
  handle_event-AtMost addr disconnected m h = AtMost-remove m.peers addr h
  handle_event-AtMost addr (have _) m h = h
  handle_event-AtMost addr (bitfield_received _) m h = h
  handle_event-AtMost addr have_all m h = h
  handle_event-AtMost addr extended_handshake m h = h
  handle_event-AtMost addr metadata_message m h = h
  handle_event-AtMost addr (pex_peers _) m h = h

-- The state of a peer after a write through `peer_state_mut`.
pub update_peer-found :
    (addr : ℕ) (f : PeerState → PeerState) (m : PeerManager) (st' : PeerState)
    → find addr (update_peer addr f m).peers ≡ some st'
    → (st : PeerState) × (find addr m.peers ≡ some st) × (f st ≡ st')
unfolding update_peer
update_peer-found addr f m st' e = elim (Option-cases (find addr m.peers)) [
  | inl gone ↦ absurd (cc (gone, (rw (gone, update_peer) at e)))
  | inr (st, there) ↦
      let here : find addr (put addr (f st) m.peers) ≡ some (f st) =
        ground (arith, find-put addr addr (f st) m.peers) in
      (st, there, cc (here, (rw (there, update_peer) at e)))
]
