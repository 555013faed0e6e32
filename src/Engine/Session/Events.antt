-- ===== src/Engine/Session/Events.antt =====
-- src/engine/session.rs: the arms of the event loop in `TorrentSession::run`. `none` is the panic of
-- `from_bytes`; indices of the picker and of a bitfield read a default where the code would panic.
-- Messages to the user, times and speeds are left out.
use moviehouse.Prelude.{
  ℕ, zero, suc, ◌+◌, ◌-◌, ◌*◌, ◌%◌, ◌^◌, List, [], ◌∷◌, ◌++◌, Bool, true, ◌&&◌, Option, none, some,
  ◌==◌, if◌then◌else◌, length, min,
}
use moviehouse.Prelude.Assoc.{find, put, remove}
use moviehouse.Piece.Bitfield
use moviehouse.Piece.Bitfield.{Bitfield, from_bytes, with_piece}
use moviehouse.Piece.Picker.{
  PiecePicker, BlockRequest, BlockResult, duplicate, progress, piece_complete, peer_has_bitfield,
  peer_has_piece, peer_disconnected, is_endgame, endgame_requests, mark_verified, piece_failed,
}
use moviehouse.Piece.Picker
use moviehouse.Piece.Store.{verify}
use moviehouse.Peer.Manager.{
  PeerState, PeerEvent, connected, unchoked, choked, have, bitfield_received, have_all,
  block_received, extended_handshake, metadata_message, pex_peers, disconnected, update_peer,
  handle_event, send_command, peer_state, connected_peers, add_peers, connect_pending, requeue_peer,
}
use moviehouse.Engine.Choker.{
  PeerCommand, cancel_block, send_interested, send_have, send_extended_handshake,
  run_choking_algorithm,
}
use moviehouse.Engine.Session.{
  Env, Session, send, request_of, pending_of, fill_pipeline, refill_all_peers, release_peer_blocks,
}

-- `peer_manager.peer_state_mut(&addr)`, if the peer is there
unfoldable pub with_state : ℕ → (PeerState → PeerState) → Session → Session
with_state addr f s = record s { peer_manager = update_peer addr f s.peer_manager }

-- A command to every peer of a list.
unfoldable pub send_each : Env → PeerCommand → List ℕ → Session → Session
send_each env cmd [] s = s
send_each env cmd (addr ∷ addrs) s = send_each env cmd addrs (send env addr cmd s)

unfoldable pub except : ℕ → List ℕ → List ℕ
except addr [] = []
except addr (a ∷ addrs) = let rest = except addr addrs in if a == addr then rest else a ∷ rest

unfoldable pub send_all : Env → List (ℕ × PeerCommand) → Session → Session
send_all env [] s = s
send_all env ((addr, cmd) ∷ cmds) s = send_all env cmds (send env addr cmd s)

-- A block is cancelled at all other peers.
unfoldable pub cancel_others : Env → ℕ → PeerCommand → Session → Session
unfolding send_each except
cancel_others env addr cmd s =
    if is_endgame s.picker
    then send_each env cmd (except addr (connected_peers s.peer_manager)) s
    else s

-- The commands that cancel the pending blocks of a piece.
unfoldable pub cancels_of : ℕ → ℕ → List BlockRequest → List (ℕ × PeerCommand)
cancels_of addr piece [] = []
cancels_of addr piece (b ∷ blocks) =
    let rest = cancels_of addr piece blocks in
    if b.piece_index == piece
    then (addr, cancel_block b.piece_index b.offset b.length) ∷ rest
    else rest

unfoldable pub piece_cancels : ℕ → List ℕ → List (ℕ × List BlockRequest) → List (ℕ × PeerCommand)
unfolding cancels_of
piece_cancels piece [] pending = []
piece_cancels piece (addr ∷ addrs) pending =
    cancels_of addr piece (pending_of addr pending) ++ piece_cancels piece addrs pending

unfoldable pub cancel_piece : Env → ℕ → ℕ → Session → Session
unfolding piece_cancels send_all except
cancel_piece env addr piece s =
    if is_endgame s.picker
    then send_all env
        (piece_cancels piece (except addr (connected_peers s.peer_manager)) s.peer_pending) s
    else s

-- Requests to one peer, up to the first that its channel does not take.
unfoldable pub request_until_full : Env → ℕ → List BlockRequest → Session → Session
request_until_full env addr [] s = s
request_until_full env addr (b ∷ blocks) s =
    let rest = request_until_full env addr blocks (send env addr (request_of b) s) in
    if send_command (env.accepts addr (request_of b)) addr s.peer_manager then rest else s

unfoldable pub blast_each : Env → List ℕ → Session → Session
unfolding request_until_full
blast_each env [] s = s
blast_each env (addr ∷ addrs) s = blast_each env addrs (elim (peer_state addr s.peer_manager) [
  | none ↦ s
  | some st ↦ if st.peer_choking then s else elim (find addr s.peer_bitfields) [
    | none ↦ s
    | some bf ↦ request_until_full env addr (endgame_requests s.picker bf) s
  ]
])

-- The missing blocks are asked of all peers in the endgame.
unfoldable pub endgame_blast : Env → Session → Session
unfolding blast_each
endgame_blast env s =
    if is_endgame s.picker then blast_each env (connected_peers s.peer_manager) s else s

unfoldable pub on_connected : Env → ℕ → Bool → Session → Session
unfolding with_state
on_connected env addr supports s =
    let known : Session = record s {
      peer_bitfields = put addr (Bitfield.new s.num_pieces) s.peer_bitfields;
      peer_pending = put addr [] s.peer_pending;
    } in
    let told =
      with_state addr (λ st. record st { am_interested = true })
        (send env addr send_interested known) in
    if supports then send env addr send_extended_handshake told else told

unfoldable pub with_bitfield : Env → ℕ → Bitfield → Session → Session
with_bitfield env addr bf s = fill_pipeline env addr (record s {
  picker = peer_has_bitfield s.picker bf;
  peer_bitfields = put addr bf s.peer_bitfields;
})

-- `for i in 0..n { bf.set(i); }`
unfoldable pub set_below : ℕ → Bitfield → Bitfield
set_below zero bf = bf
set_below (suc n) bf = with_piece (set_below n bf) n

unfoldable pub on_have : Env → ℕ → ℕ → Session → Session
on_have env addr piece s = fill_pipeline env addr (record s {
  picker = peer_has_piece s.picker piece;
  peer_bitfields = elim (find addr s.peer_bitfields) [
    | none ↦ s.peer_bitfields
    | some bf ↦ put addr (with_piece bf piece) s.peer_bitfields
  ];
})

unfoldable pub on_choked : Env → ℕ → Session → Session
unfolding with_state
on_choked env addr s =
    refill_all_peers env
      (with_state addr (λ st. record st { outstanding_requests = 0 }) (release_peer_blocks addr s))

-- `pending.retain(…)`
unfoldable pub without_block : ℕ → ℕ → List BlockRequest → List BlockRequest
without_block piece offset [] = []
without_block piece offset (b ∷ blocks) =
    let rest = without_block piece offset blocks in
    if b.piece_index == piece && b.offset == offset then rest else b ∷ rest

unfoldable pub settle : ℕ → ℕ → ℕ → Session → Session
unfolding without_block with_state
settle addr piece offset s =
    with_state addr (λ st. record st { outstanding_requests = st.outstanding_requests - 1 })
      (elim (find addr s.peer_pending) [
        | none ↦ s
        | some blocks ↦ record s {
          peer_pending = put addr (without_block piece offset blocks) s.peer_pending;
        }
      ])

unfoldable pub on_disconnected : Env → ℕ → Session → Session
on_disconnected env addr s =
    let released = release_peer_blocks addr s in
    let gone : Session = record released {
      picker = elim (find addr released.peer_bitfields) [
        | none ↦ released.picker
        | some bf ↦ peer_disconnected released.picker bf
      ];
      peer_bitfields = remove addr released.peer_bitfields;
      peer_pending = remove addr released.peer_pending;
      peer_manager = requeue_peer addr released.peer_manager;
    } in
    refill_all_peers env gone

module _ (sha1 : List ℕ → List ℕ) where
  -- A piece with all its blocks.
  unfoldable pub on_piece_complete : Env → ℕ → List ℕ → Session → Session
  unfolding send_each
  on_piece_complete env piece piece_bytes s =
      if verify sha1 s.piece_store piece piece_bytes
      then (let picker' = mark_verified s.picker piece in
          send_each env (send_have piece) (connected_peers s.peer_manager) (record s {
            picker = picker';
            pieces_done = picker'.verified_count;
            downloaded_bytes = min (picker'.verified_count * s.piece_length) s.total_length;
            writes = (piece, piece_bytes) ∷ s.writes;
          }))
      else record s { picker = piece_failed s.picker piece }

  unfoldable pub on_result : Env → ℕ → ℕ → ℕ → List ℕ → BlockResult → Session → Session
  unfolding cancel_others cancel_piece on_piece_complete
  on_result env addr piece offset bytes duplicate s =
      cancel_others env addr (cancel_block piece offset (length bytes % 2 ^ 32)) s
  on_result env addr piece offset bytes (progress new_bytes) s =
      cancel_others env addr (cancel_block piece offset (length bytes % 2 ^ 32))
        (record s { bytes_new = s.bytes_new + new_bytes })
  on_result env addr piece offset bytes (piece_complete piece_bytes) s =
      on_piece_complete env piece piece_bytes
        (cancel_piece env addr piece (record s { bytes_new = s.bytes_new + length bytes }))

  unfoldable pub on_block : Env → ℕ → ℕ → ℕ → List ℕ → Session → Session
  unfolding settle on_result endgame_blast
  on_block env addr piece offset bytes s =
      let settled = settle addr piece offset s in
      let (picker', result) = Picker.block_received settled.picker piece offset bytes in
      endgame_blast env (
        fill_pipeline env addr
          (on_result env addr piece offset bytes result (record settled { picker = picker' })))

  unfoldable pub dispatch : Env → ℕ → PeerEvent → Session → Option Session
  unfolding on_connected with_bitfield set_below on_have on_choked on_disconnected on_block
  dispatch env addr (connected supports) s = some (on_connected env addr supports s)
  dispatch env addr (bitfield_received bytes) s = elim (from_bytes bytes s.num_pieces) [
    | none ↦ none
    | some bf ↦ some (with_bitfield env addr bf s)
  ]
  dispatch env addr have_all s =
      some (with_bitfield env addr (set_below s.num_pieces (Bitfield.new s.num_pieces)) s)
  dispatch env addr (have piece) s = some (on_have env addr piece s)
  dispatch env addr unchoked s = some (fill_pipeline env addr s)
  dispatch env addr choked s = some (on_choked env addr s)
  dispatch env addr (block_received piece offset bytes) s =
      some (on_block env addr piece offset bytes s)
  dispatch env addr disconnected s = some (on_disconnected env addr s)
  dispatch env addr (pex_peers peers) s =
      if s.lightspeed
      then some (record s { peer_manager = connect_pending (add_peers peers s.peer_manager) })
      else some s
  dispatch env addr extended_handshake s = some s
  dispatch env addr metadata_message s = some s

  -- The arm of an event from a peer.
  unfoldable pub on_event : Env → ℕ → PeerEvent → Session → Option Session
  unfolding dispatch
  on_event env addr event s =
      dispatch env addr event (record s { peer_manager = handle_event addr event s.peer_manager })

-- The arms of discovered peers and of the two intervals that matter here.
unfoldable pub on_peers : List ℕ → Session → Session
on_peers peers s = record s { peer_manager = connect_pending (add_peers peers s.peer_manager) }

unfoldable pub on_connect_tick : Env → Session → Session
unfolding endgame_blast
on_connect_tick env s =
    endgame_blast env (record s { peer_manager = connect_pending s.peer_manager })

unfoldable pub on_choke_tick : Env → (List ℕ → Option ℕ) → Session → Session
unfolding send_all
on_choke_tick env choose s =
    let counter = (s.optimistic_counter + 1) % 2 ^ 32 in
    send_all env (run_choking_algorithm choose s.peer_manager (counter % 3 == 0))
      (record s { optimistic_counter = counter })
