-- ===== src/Examples/Engine.antt =====
-- src/engine/choker.rs: the theorem on the choking algorithm, at a pool of six peers.
use moviehouse.Prelude.{ℕ, [], ◌∷◌}
use moviehouse.Peer.Manager.{PeerState, PeerManager, fresh_state}
use moviehouse.Engine.Choker.Slots.{Slots}

abbrev with_rate : ℕ → PeerState
with_rate n = record fresh_state { bytes_downloaded = n }

abbrev six_peers : PeerManager
six_peers = record {
  max_peers = 50;
  peers =
      (1, with_rate 10)
      ∷ (2, with_rate 60)
      ∷ (3, with_rate 20)
      ∷ (4, with_rate 50)
      ∷ (5, with_rate 30)
      ∷ (6, with_rate 40)
      ∷ [];
  pending_peers = [];
  known_addrs = [];
  connecting = [];
}
