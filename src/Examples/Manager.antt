-- ===== src/Examples/Manager.antt =====
-- src/peer/manager.rs: the theorems on the pool of peers, at one that two peers were added to.
use moviehouse.Prelude.{ℕ, ◌≡◌, [], ◌∷◌, true}
use moviehouse.Peer.Manager.{
  PeerManager, new, add_peers, connect_pending, handle_event, connected, has_room, is_busy,
  contains,
}
use moviehouse.Peer.Manager.Bounds.{
  Bounded, started, added, tried, handled, Reachable-Bounded, is_kept, connect_pending-keeps,
}

abbrev two_addrs : PeerManager
two_addrs = add_peers (7 ∷ 8 ∷ []) (new 50)

abbrev one_connected : PeerManager
one_connected = handle_event 7 (connected true) (connect_pending two_addrs)

Reachable-Bounded_example : Bounded one_connected
Reachable-Bounded_example =
    Reachable-Bounded one_connected
      (handled _ 7 (connected true) (tried two_addrs (added (new 50) _ (started 50))))

connect_pending-keeps_example :
    ((a : ℕ)
      → contains a two_addrs.pending_peers ≡ true
      → is_kept a (connect_pending two_addrs) ≡ true)
    × (has_room (connect_pending two_addrs) ≡ true
        → (a : ℕ) → contains a two_addrs.pending_peers ≡ true
        → is_busy a (connect_pending two_addrs) ≡ true)
connect_pending-keeps_example = connect_pending-keeps two_addrs
