-- ===== src/Piece/Progress.antt =====
-- src/piece/picker.rs: `PieceProgress`, the blocks of one piece. An index that is out of bounds reads
-- `false` here and writes nothing; `Indexing` has the operations with the panics of the code.
pub mod Valid
pub mod Updates
pub mod Indexing
use moviehouse.Prelude.{
  ℕ, zero, suc, ◌+◌, ◌-◌, ◌*◌, ◌/◌, ◌%◌, List, [], ◌∷◌, ◌++◌, Bool, true, false, not, ◌&&◌, ◌||◌,
  Option, none, some, leb, ltb, ◌==◌, if◌then◌else◌, length, get_or, set, replicate, min,
}
use moviehouse.Peer.Message.{block_size}

pub record PieceProgress : Type 0 where
  pub piece_length : ℕ
  pub num_blocks : ℕ
  pub blocks_received : List Bool
  pub blocks_assigned : List Bool
  pub received_count : ℕ
  pub assign_cursor : ℕ
  pub buffer : List ℕ
  pub active_peers : ℕ

-- `piece_length.div_ceil(BLOCK_SIZE)`
abbrev pub blocks_of : ℕ → ℕ
blocks_of piece_length = (piece_length + (block_size - 1)) / block_size

unfoldable pub new : ℕ → PieceProgress
new piece_length =
    let num_blocks = blocks_of piece_length in
    record {
      piece_length = piece_length;
      num_blocks = num_blocks;
      blocks_received = replicate num_blocks false;
      blocks_assigned = replicate num_blocks false;
      received_count = 0;
      assign_cursor = 0;
      buffer = replicate piece_length 0;
      active_peers = 0;
    }

unfoldable pub block_length : PieceProgress → ℕ → ℕ
block_length p block_index =
    if block_index == p.num_blocks - 1
    then (let remainder = p.piece_length % block_size in
        if remainder == 0 then block_size else remainder)
    else block_size

unfoldable pub is_complete : PieceProgress → Bool
is_complete p = p.received_count == p.num_blocks

-- Flag of a block, as the code reads it.
abbrev pub flag : List Bool → ℕ → Bool
flag flags i = get_or flags i false

-- A block that nobody has been asked for.
abbrev pub is_free : PieceProgress → ℕ → Bool
is_free p i = not (flag p.blocks_received i) && not (flag p.blocks_assigned i)

-- The `while` loop, with fuel for the blocks that are left.
unfoldable pub assign_loop : ℕ → PieceProgress → PieceProgress × Option ℕ
assign_loop zero p = (p, none)
assign_loop (suc fuel) p =
    let idx = p.assign_cursor in
    let stepped = record p { assign_cursor = p.assign_cursor + 1 } in
    let rest = assign_loop fuel stepped in
    if ltb p.assign_cursor p.num_blocks
    then (if is_free p idx
        then (record stepped { blocks_assigned = set p.blocks_assigned idx true }, some idx)
        else rest)
    else (p, none)

unfoldable pub assign_next_block : PieceProgress → PieceProgress × Option ℕ
assign_next_block p = assign_loop (p.num_blocks - p.assign_cursor) p

unfoldable pub mark_received : PieceProgress → ℕ → PieceProgress × Bool
mark_received p idx =
    if leb (length p.blocks_received) idx || flag p.blocks_received idx then (p, false) else (
      record p {
        blocks_received = set p.blocks_received idx true;
        blocks_assigned = set p.blocks_assigned idx true;
        received_count = p.received_count + 1;
        assign_cursor = 0;
      },
      true,
    )

unfoldable pub mark_unassigned : PieceProgress → ℕ → PieceProgress
mark_unassigned p idx =
    if ltb idx (length p.blocks_assigned) && not (flag p.blocks_received idx)
    then record p {
      blocks_assigned = set p.blocks_assigned idx false;
      assign_cursor = min p.assign_cursor idx;
    }
    else p

-- The loop `for i in 0..n`.
unfoldable pub unreceived_below : PieceProgress → ℕ → List (ℕ × ℕ)
unreceived_below p zero = []
unreceived_below p (suc n) =
    let before = unreceived_below p n in
    if flag p.blocks_received n then before else before ++ (n, block_length p n) ∷ []

unfoldable pub unreceived_blocks : PieceProgress → List (ℕ × ℕ)
unfolding unreceived_below
unreceived_blocks p = unreceived_below p p.num_blocks
