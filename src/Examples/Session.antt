-- ===== src/Examples/Session.antt =====
-- src/engine/session.rs and src/engine/resume.rs: a download of one piece, from one peer.
use moviehouse.Prelude.{
  ℕ, max, ◌+◌, ◌≤◌, ◌≡◌, ◌↔◌, refl, List, [], ◌∷◌, Bool, true, false, Option, none, some, length,
  All, arith, ◌<◌,
}
use moviehouse.Prelude.Assoc.{find}
use moviehouse.Piece.Bitfield.{Bitfield, holds}
use moviehouse.Piece.Picker.{PiecePicker, new, random_first, endgame, is_complete}
use moviehouse.Piece.Store.{verify}
use moviehouse.Peer.Manager.{
  PeerState, PeerManager, PeerEvent, connected, unchoked, bitfield_received, have_all,
  block_received,
}
use moviehouse.Torrent.Metainfo.{Info, single}
use moviehouse.Engine.Choker.{request_block, send_interested, send_have}
use mathlib.Core.Path.{subst}
use moviehouse.Engine.Resume.{verify_on_disk}
use moviehouse.Engine.Resume.Adopted.{Adopts, verify_on_disk-Adopts}
use moviehouse.Engine.Session.{Env, Session, max_pipeline, fill_pipeline}
use moviehouse.Engine.Session.Pipeline.{Asks, fill_pipeline-Asks}
use moviehouse.Engine.Session.Start.{start}
use moviehouse.Engine.Session.Events.{on_event, on_peers}
use moviehouse.Engine.Session.Downloads.{Once}
use moviehouse.Engine.Session.Reachable.{Reachable, started, event, discovered, adopted, hashes}
use moviehouse.Engine.Session.Reached.{writes_sound, complete_all}
use moviehouse.Engine.Session.Refine.{Downloads, view}
use moviehouse.Engine.Session.Run.{run_refines}

-- A hash that is the data itself, and a torrent of one piece of three bytes.
abbrev same : List ℕ → List ℕ
same bytes = bytes

abbrev content : List ℕ
content = 7 ∷ 8 ∷ 9 ∷ []

abbrev small : Info Unit
small = record {
  piece_length = 3;
  pieces = content ∷ [];
  name = [];
  files = single 3;
  total_length = 3;
}

abbrev unread : ℕ → ℕ → Option (List ℕ)
unread index len = none

-- The piece is on the disk.
abbrev stored : ℕ → ℕ → Option (List ℕ)
stored index len = some content

-- Nothing is drawn, no channel is full.
abbrev plain : Env
plain = record {
  choice = λ addr n. record { rnd = λ i. 0; order = []; accepted = true };
  accepts = λ addr cmd. true;
  adaptive = λ addr. 0;
}

abbrev peer : PeerState
peer = record {
  am_interested = true;
  peer_choking = true;
  bytes_downloaded = 0;
  outstanding_requests = 0;
  supports_extensions = false;
}

abbrev peer_free : PeerState
peer_free = record peer { peer_choking = false; bytes_downloaded = 3 }

abbrev pool : PeerState → PeerManager
pool st = record {
  max_peers = 10;
  peers = (5, st) ∷ [];
  pending_peers = [];
  known_addrs = 5 ∷ [];
  connecting = [];
}

-- No piece, and the piece.
abbrev nothing_yet : Bitfield
nothing_yet = record { bits = 0 ∷ []; num_pieces = 1; count = 0 }

abbrev the_piece : Bitfield
the_piece = record { bits = 128 ∷ []; num_pieces = 1; count = 1 }

abbrev fresh_picker : PiecePicker
fresh_picker = record {
  num_pieces = 1;
  availability = 0 ∷ [];
  owned = nothing_yet;
  in_progress = [];
  mode = random_first;
  piece_length = 3;
  total_length = 3;
  verified_count = 0;
}

-- A peer was discovered.
abbrev s1 : Session
s1 = record {
  num_pieces = 1;
  piece_length = 3;
  total_length = 3;
  lightspeed = false;
  piece_store = record { piece_hashes = content ∷ [] };
  picker = fresh_picker;
  peer_manager = record (pool (record peer { am_interested = false })) { connecting = 5 ∷ [] };
  peer_bitfields = [];
  peer_pending = [];
  optimistic_counter = 0;
  bytes_new = 0;
  downloaded_bytes = 0;
  pieces_done = 0;
  sent = [];
  writes = [];
}

-- It connected,
abbrev s2 : Session
s2 = record s1 {
  peer_manager = pool peer;
  peer_bitfields = (5, nothing_yet) ∷ [];
  peer_pending = (5, []) ∷ [];
  sent = (5, send_interested) ∷ [];
}

-- it has all pieces,
abbrev s3 : Session
s3 = record s2 {
  picker = record fresh_picker { availability = 1 ∷ [] };
  peer_bitfields = (5, the_piece) ∷ [];
}

-- it was unchoked and asked for the block,
abbrev s4 : Session
s4 = record s3 {
  picker = record fresh_picker {
    availability = 1 ∷ [];
    in_progress =
        (
          0,
          record {
            piece_length = 3;
            num_blocks = 1;
            blocks_received = false ∷ [];
            blocks_assigned = true ∷ [];
            received_count = 0;
            assign_cursor = 1;
            buffer = 0 ∷ 0 ∷ 0 ∷ [];
            active_peers = 1;
          },
        )
        ∷ [];
    mode = endgame;
  };
  peer_manager = pool (record peer { peer_choking = false; outstanding_requests = 1 });
  peer_pending = (5, record { piece_index = 0; offset = 0; length = 3 } ∷ []) ∷ [];
  sent = (5, request_block 0 0 3) ∷ s3.sent;
}

-- and the block came.
abbrev s5 : Session
s5 = record s4 {
  picker = record fresh_picker {
    availability = 1 ∷ [];
    owned = the_piece;
    mode = endgame;
    verified_count = 1;
  };
  peer_manager = pool peer_free;
  peer_pending = (5, []) ∷ [];
  bytes_new = 3;
  downloaded_bytes = 3;
  pieces_done = 1;
  sent = (5, send_have 0) ∷ s4.sent;
  writes = (0, content) ∷ [];
}

step1 : on_peers (5 ∷ []) (start same unread false small 10 [] false) ≡ s1
unfolding on_peers start moviehouse.Piece.Picker.new moviehouse.Peer.Manager.connect_pending
    moviehouse.Piece.Bitfield.new moviehouse.Peer.Manager.add_peers moviehouse.Peer.Manager.new
    moviehouse.Prelude.Assoc.contains_key moviehouse.Prelude.Assoc.put
step1 = refl

step2 : on_event same plain 5 (connected false) s1 ≡ some s2
unfolding on_event moviehouse.Engine.Session.send moviehouse.Peer.Manager.update_peer
    moviehouse.Peer.Manager.send_command find moviehouse.Prelude.Assoc.contains_key
    moviehouse.Peer.Manager.handle_event moviehouse.Prelude.Assoc.put
    moviehouse.Peer.Manager.remove_addr moviehouse.Piece.Bitfield.new
step2 = refl

step3 : on_event same plain 5 have_all s2 ≡ some s3
unfolding on_event moviehouse.Engine.Session.fill_pipeline find moviehouse.Peer.Manager.handle_event
    moviehouse.Piece.Picker.peer_has_bitfield moviehouse.Prelude.Assoc.put
    moviehouse.Piece.Bitfield.set_indices moviehouse.Piece.Bitfield.with_piece
    moviehouse.Piece.Bitfield.new holds moviehouse.Piece.Bitfield.has
    moviehouse.Piece.Bitfield.set_bit moviehouse.Piece.Picker.more_available
step3 = refl

step4 : on_event same plain 5 unchoked s3 ≡ some s4
unfolding on_event moviehouse.Engine.Session.fill_pipeline find moviehouse.Peer.Manager.handle_event
    moviehouse.Prelude.Assoc.put moviehouse.Piece.Picker.pick_block
    moviehouse.Piece.Picker.sort_by_active moviehouse.Piece.Picker.candidates
    moviehouse.Piece.Picker.start_piece moviehouse.Piece.Picker.pick_piece holds
    moviehouse.Piece.Bitfield.has moviehouse.Prelude.Assoc.contains_key
    moviehouse.Piece.Picker.consider moviehouse.Piece.Progress.assign_next_block
    moviehouse.Piece.Progress.assign_loop moviehouse.Piece.Progress.new
    moviehouse.Piece.Picker.actual_piece_length moviehouse.Peer.Manager.send_command
    moviehouse.Engine.Session.requested moviehouse.Piece.Picker.check_mode
    moviehouse.Piece.Picker.assigned moviehouse.Piece.Progress.block_length
step4 = refl

step5 : on_event same plain 5 (block_received 0 0 content) s4 ≡ some s5
unfolding on_event moviehouse.Piece.Picker.is_endgame moviehouse.Engine.Session.fill_pipeline find
    moviehouse.Piece.Picker.block_received moviehouse.Piece.Progress.mark_received
    moviehouse.Piece.Progress.is_complete moviehouse.Piece.Picker.store_block verify
    moviehouse.Peer.Manager.connected_peers moviehouse.Peer.Manager.update_peer
    moviehouse.Peer.Manager.handle_event moviehouse.Prelude.Assoc.put
    moviehouse.Piece.Picker.overwrite moviehouse.Engine.Session.send
    moviehouse.Peer.Manager.send_command moviehouse.Prelude.Assoc.contains_key
    moviehouse.Piece.Picker.pick_block moviehouse.Piece.Picker.sort_by_active
    moviehouse.Piece.Picker.candidates moviehouse.Piece.Picker.start_piece
    moviehouse.Piece.Picker.pick_piece moviehouse.Piece.Picker.mark_verified
    moviehouse.Piece.Picker.check_mode holds moviehouse.Piece.Bitfield.has
    moviehouse.Piece.Bitfield.with_piece moviehouse.Piece.Bitfield.set_bit
    moviehouse.Piece.Picker.endgame_requests moviehouse.Prelude.Assoc.remove
step5 = refl

abbrev Reached : Session → Type 0
Reached = Reachable same unread false small 10 [] false

unfinished : is_complete (start same unread false small 10 [] false).picker ≡ false
unfolding is_complete start moviehouse.Piece.Bitfield.is_complete new moviehouse.Piece.Bitfield.new
unfinished = refl

s1-Reached : Reached s1
s1-Reached =
    subst Reached step1
      (discovered (5 ∷ []) (start same unread false small 10 [] false) unfinished started)

s5-Reached : Reached s5
unfolding is_complete moviehouse.Piece.Bitfield.is_complete
s5-Reached = event plain 5 (block_received 0 0 content) s4 s5 refl step5 (
    event plain 5 unchoked s3 s4 refl step4 (
      event plain 5 have_all s2 s3 refl step3
        (event plain 5 (connected false) s1 s2 refl step2 s1-Reached)))

s5_complete : is_complete s5.picker ≡ true
unfolding is_complete moviehouse.Piece.Bitfield.is_complete
s5_complete = refl

writes_sound_example :
    All (λ (i, bytes). verify same (hashes small) i bytes ≡ true) s5.writes
    × Once s5.writes
    × (s5.pieces_done ≡ adopted same unread false small + length s5.writes)
writes_sound_example = writes_sound same unread false small 10 [] false s5 s5-Reached

-- The peer when it has unchoked.
abbrev peer_open : PeerState
peer_open = record peer { peer_choking = false }

abbrev s3_open : Session
s3_open = record s3 { peer_manager = pool peer_open }

fill_pipeline-Asks_example :
    Asks 5 peer_open
      (max peer_open.outstanding_requests (max_pipeline s3_open.lightspeed (plain.adaptive 5)))
      s3_open
      (fill_pipeline plain 5 s3_open)
unfolding find
fill_pipeline-Asks_example = fill_pipeline-Asks plain 5 s3_open peer_open refl

complete_all_example :
    ((i : ℕ) → i < length small.pieces → holds s5.picker.owned i ≡ true)
    × (adopted same unread false small + length s5.writes ≡ length small.pieces)
complete_all_example = complete_all same unread false small 10 [] false s5 s5-Reached s5_complete

run_refines_example :
    Downloads same (hashes small) (view (start same unread false small 10 [] false)) (view s5)
run_refines_example = run_refines same unread false small 10 [] false s5 s5-Reached

verify_on_disk-Adopts_example :
    Adopts same stored
      (hashes small)
      small
      1
      1
      (verify_on_disk same stored (hashes small) small (new 1 3 3))
verify_on_disk-Adopts_example = verify_on_disk-Adopts same stored (hashes small) small
