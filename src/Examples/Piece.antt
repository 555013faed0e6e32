-- ===== src/Examples/Piece.antt =====
-- src/piece/picker.rs: the theorems on the blocks of a piece and on the picker, at concrete torrents.
use moviehouse.Prelude.{ℕ, zero, suc, ◌<◌, ◌≡◌, ◌↔◌, refl, List, [], ◌∷◌, true, arith, some}
use moviehouse.Prelude.Assoc.{find, contains_key}
use moviehouse.Piece.Bitfield.{Bitfield}
use moviehouse.Piece.Progress.{
  PieceProgress, new, flag, is_complete, assign_next_block, mark_received, mark_unassigned,
}
use moviehouse.Piece.Progress.Valid.{IsValid, Assigns, assign_next_block-Assigns, new-IsValid}
use moviehouse.Piece.Progress.Updates.{complete_iff}
use moviehouse.Piece.Progress.Indexing.{
  mark_received_indexed, mark_unassigned_indexed, assign_next_block_indexed,
}
use moviehouse.Piece.Picker.Blocks.{
  Reachable, started, assigned, joined, received, stored, Reachable-IsValid, Reachable-Indexes,
}
use moviehouse.Piece.Picker.{
  PiecePicker, more_active, store_block, random_first, u16_max, pick_piece, pick_block,
  peer_has_bitfield, peer_disconnected,
}
use moviehouse.Piece.Picker.Continue.{AllValid}
use moviehouse.Piece.Picker.Asking.{Asks, pick_block-Asks}
use moviehouse.Piece.Picker.Availability.{peer_disconnected-peer_has_bitfield}
use moviehouse.Piece.Picker.Rarest.{avail_of, Countable, Picks, pick_piece-Picks}

-- A piece of three blocks, of which the first was asked for and the second came.
abbrev asked_piece : PieceProgress
asked_piece = (assign_next_block (new 40_000)).0

abbrev started_piece : PieceProgress
started_piece =
    (mark_received (record asked_piece { active_peers = more_active asked_piece.active_peers }) 1).0

abbrev stored_piece : PieceProgress
stored_piece = store_block started_piece 16_384 (7 ∷ 8 ∷ [])

started_piece_reached : Reachable started_piece
started_piece_reached = received _ 1 (joined asked_piece (assigned (new 40_000) (started 40_000)))

Reachable-IsValid_example : IsValid stored_piece
Reachable-IsValid_example =
    Reachable-IsValid stored_piece (stored started_piece 16_384 (7 ∷ 8 ∷ []) started_piece_reached)

Reachable-Indexes_example :
    (mark_received_indexed started_piece 9 ≡ some (mark_received started_piece 9))
    × (mark_unassigned_indexed started_piece 9 ≡ some (mark_unassigned started_piece 9))
    × (assign_next_block_indexed started_piece ≡ some (assign_next_block started_piece))
Reachable-Indexes_example = Reachable-Indexes started_piece 9 started_piece_reached

assign_next_block-Assigns_example : Assigns started_piece (assign_next_block started_piece)
assign_next_block-Assigns_example =
    assign_next_block-Assigns started_piece (Reachable-IsValid started_piece started_piece_reached)

complete_iff_example :
    (is_complete (new 40_000) ≡ true)
    ↔ ((i : ℕ) → i < (new 40_000).num_blocks → flag (new 40_000).blocks_received i ≡ true)
complete_iff_example = complete_iff (new 40_000) (new-IsValid 40_000)

-- A torrent of three pieces, the second of which is the rarest.
abbrev three_pieces : PiecePicker
three_pieces = record {
  num_pieces = 3;
  availability = 2 ∷ 1 ∷ 3 ∷ [];
  owned = record { bits = 0 ∷ []; num_pieces = 3; count = 0 };
  in_progress = [];
  mode = random_first;
  piece_length = 32_768;
  total_length = 98_304;
  verified_count = 0;
}

three_pieces-Countable : Countable three_pieces
three_pieces-Countable zero = omega arith
three_pieces-Countable (suc zero) = omega arith
three_pieces-Countable (suc (suc zero)) = omega arith
three_pieces-Countable (suc (suc (suc i))) = omega arith

abbrev seed : Bitfield
seed = record { bits = 224 ∷ []; num_pieces = 3; count = 3 }

pick_piece-Picks_example : Picks three_pieces seed (pick_piece (λ i. i) three_pieces seed)
pick_piece-Picks_example = pick_piece-Picks (λ i. i) three_pieces seed three_pieces-Countable

three_pieces-AllValid : AllValid three_pieces.in_progress
unfolding find
three_pieces-AllValid i q e = cc

pick_block-Asks_example : Asks three_pieces seed (pick_block (λ i. i) [] three_pieces seed)
unfolding contains_key
pick_block-Asks_example =
    pick_block-Asks (λ i. i) [] three_pieces seed three_pieces-AllValid three_pieces-Countable
      (omega arith) (λ i e. cc)

three_pieces_below : (i : ℕ) → avail_of three_pieces i < u16_max
three_pieces_below zero = omega arith
three_pieces_below (suc zero) = omega arith
three_pieces_below (suc (suc zero)) = omega arith
three_pieces_below (suc (suc (suc i))) = omega arith

peer_disconnected-peer_has_bitfield_example :
    peer_disconnected (peer_has_bitfield three_pieces seed) seed ≡ three_pieces
peer_disconnected-peer_has_bitfield_example =
    peer_disconnected-peer_has_bitfield three_pieces seed refl three_pieces_below

-- A piece of three bytes, which is one block.
abbrev small_content : List ℕ
small_content = 7 ∷ 8 ∷ 9 ∷ []

abbrev small_torrent : PiecePicker
small_torrent = record three_pieces {
  num_pieces = 1;
  in_progress = (0, new 3) ∷ [];
  piece_length = 3;
  total_length = 3;
}
