-- ===== src/Engine/Session.antt =====
-- src/engine/session.rs: the state of `TorrentSession::run` and the functions at its end, which ask
-- peers for blocks. What the code leaves open is in `Env`: what is drawn, the orders in which maps
-- are visited, which channels are full, and the throughput of a peer, which is floating point.
pub mod Events
pub mod Pipeline
pub mod Quiet
pub mod Arms
pub mod Downloads
pub mod Start
pub mod Reachable
pub mod Reached
pub mod Refine
pub mod Run
use moviehouse.Prelude.{
  ℕ, zero, suc, ◌+◌, ◌-◌, List, [], ◌∷◌, ◌++◌, Bool, true, false, Option, none, some, leb, max, min,
  if◌then◌else◌,
}
use moviehouse.Prelude.Assoc.{find, put}
use moviehouse.Piece.Bitfield.{Bitfield}
use moviehouse.Piece.Picker.{PiecePicker, BlockRequest, pick_block, unassign_block}
use moviehouse.Piece.Store.{PieceStore}
use moviehouse.Peer.Manager.{
  PeerState, PeerManager, update_peer, send_command, peer_state, connected_peers,
}
use moviehouse.Engine.Choker.{PeerCommand, request_block}

-- What is open in one call of `pick_block` and the `send_command` after it.
pub record Choice : Type 0 where
  pub rnd : ℕ → ℕ
  pub order : List ℕ
  pub accepted : Bool

-- `choice` by the address of the peer and the rounds that are left; `adaptive` is
-- `(peer_throughput * 8.0) as u32`.
pub record Env : Type 0 where
  pub choice : ℕ → ℕ → Choice
  pub accepts : ℕ → PeerCommand → Bool
  pub adaptive : ℕ → ℕ

-- The local variables of `run`. `sent` are the commands that channels took, the last first, and
-- `writes` the pieces that were handed to the disk.
pub record Session : Type 0 where
  pub num_pieces : ℕ
  pub piece_length : ℕ
  pub total_length : ℕ
  pub lightspeed : Bool
  pub piece_store : PieceStore
  pub picker : PiecePicker
  pub peer_manager : PeerManager
  pub peer_bitfields : List (ℕ × Bitfield)
  pub peer_pending : List (ℕ × List BlockRequest)
  pub optimistic_counter : ℕ
  pub bytes_new : ℕ
  pub downloaded_bytes : ℕ
  pub pieces_done : ℕ
  pub sent : List (ℕ × PeerCommand)
  pub writes : List (ℕ × List ℕ)

unfoldable pub max_pipeline : Bool → ℕ → ℕ
max_pipeline lightspeed adaptive = if lightspeed then min 256 (max 64 adaptive) else 64

-- `send_command`, where the answer is not looked at.
unfoldable pub send : Env → ℕ → PeerCommand → Session → Session
send env addr cmd s =
    if send_command (env.accepts addr cmd) addr s.peer_manager
    then record s { sent = (addr, cmd) ∷ s.sent }
    else s

abbrev pub request_of : BlockRequest → PeerCommand
request_of b = request_block b.piece_index b.offset b.length

-- `peer_pending.entry(*addr).or_default()`
abbrev pub pending_of : ℕ → List (ℕ × List BlockRequest) → List BlockRequest
pending_of addr m = elim (find addr m) [ none ↦ [] | some blocks ↦ blocks ]

-- What follows a request that the channel took.
unfoldable pub requested : ℕ → BlockRequest → Session → Session
requested addr b s = record s {
  peer_manager =
      update_peer addr (λ st. record st { outstanding_requests = st.outstanding_requests + 1 })
        s.peer_manager;
  peer_pending = put addr (pending_of addr s.peer_pending ++ b ∷ []) s.peer_pending;
  sent = (addr, request_of b) ∷ s.sent;
}

-- The loop of `fill_pipeline`, for the rounds that are left.
unfoldable pub fill_loop : (ℕ → Choice) → ℕ → Bitfield → ℕ → Session → Session
fill_loop choice addr bf zero s = s
fill_loop choice addr bf (suc n) s =
    let c = choice n in
    let (picker', block) = pick_block c.rnd c.order s.picker bf in
    let s' : Session = record s { picker = picker' } in
    elim block [
      | none ↦ s'
      | some b ↦ elim (send_command c.accepted addr s.peer_manager) [
        | false ↦ s'
        | true ↦ fill_loop choice addr bf n (requested addr b s')
      ]
    ]

unfoldable pub fill_pipeline : Env → ℕ → Session → Session
unfolding max_pipeline peer_state fill_loop
fill_pipeline env addr s = elim (peer_state addr s.peer_manager) [
  | none ↦ s
  | some st ↦
      let depth = max_pipeline s.lightspeed (env.adaptive addr) in
      if st.peer_choking
      then s
      else if leb depth st.outstanding_requests
      then s
      else elim (find addr s.peer_bitfields) [
        | none ↦ s
        | some bf ↦ fill_loop (env.choice addr) addr bf (depth - st.outstanding_requests) s
      ]
]

unfoldable pub refill_each : Env → List ℕ → Session → Session
unfolding fill_pipeline
refill_each env [] s = s
refill_each env (addr ∷ addrs) s = refill_each env addrs (fill_pipeline env addr s)

unfoldable pub refill_all_peers : Env → Session → Session
unfolding refill_each connected_peers
refill_all_peers env s = refill_each env (connected_peers s.peer_manager) s

unfoldable pub release_blocks : List BlockRequest → PiecePicker → PiecePicker
release_blocks [] p = p
release_blocks (b ∷ blocks) p = release_blocks blocks (unassign_block p b.piece_index b.offset)

unfoldable pub release_peer_blocks : ℕ → Session → Session
unfolding release_blocks
release_peer_blocks addr s = elim (find addr s.peer_pending) [
  | none ↦ s
  | some blocks ↦ record s {
    picker = release_blocks blocks s.picker;
    peer_pending = put addr [] s.peer_pending;
  }
]
