-- ===== src/Engine/Session/Start.antt =====
-- src/engine/session.rs: the state with which `TorrentSession::run` enters its event loop.
use moviehouse.Prelude.{ℕ, ◌*◌, List, [], Bool, Option, if◌then◌else◌, length, min}
use moviehouse.Piece.Picker
use moviehouse.Piece.Picker.{PiecePicker}
use moviehouse.Peer.Manager
use moviehouse.Peer.Manager.{add_peers}
use moviehouse.Torrent.Metainfo.{Info}
use moviehouse.Engine.Resume.{verify_on_disk}
use moviehouse.Engine.Session.{Session}

module _ (sha1 : List ℕ → List ℕ) (read : ℕ → ℕ → Option (List ℕ)) {PathBuf : Type 0} where
  -- The picker and the number of adopted pieces; `existing` says whether there is a file on the disk.
  unfoldable pub resumed : Bool → Info PathBuf → PiecePicker × ℕ
  resumed existing info =
      let picker = Picker.new (length info.pieces) info.piece_length info.total_length in
      if existing
      then verify_on_disk sha1 read (record { piece_hashes = info.pieces }) info picker
      else (picker, 0)

  unfoldable pub start : Bool → Info PathBuf → ℕ → List ℕ → Bool → Session
  unfolding resumed
  start existing info max_peers warm_peers lightspeed =
      let (picker, adopted) = resumed existing info in
      record {
        num_pieces = length info.pieces;
        piece_length = info.piece_length;
        total_length = info.total_length;
        lightspeed = lightspeed;
        piece_store = record { piece_hashes = info.pieces };
        picker = picker;
        peer_manager = add_peers warm_peers (Manager.new max_peers);
        peer_bitfields = [];
        peer_pending = [];
        optimistic_counter = 0;
        bytes_new = 0;
        downloaded_bytes = min (adopted * info.piece_length) info.total_length;
        pieces_done = adopted;
        sent = [];
        writes = [];
      }
