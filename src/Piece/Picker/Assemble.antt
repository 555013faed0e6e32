-- ===== src/Piece/Picker/Assemble.antt =====
-- src/piece/picker.rs: `block_received`, the assembly of a piece.
use moviehouse.Prelude.{
  ℕ, zero, suc, ◌+◌, ◌-◌, ◌*◌, ◌/◌, ◌≤◌, ◌<◌, ◌≡◌, refl, ap, arith, List, [], ◌∷◌, true, false,
  some, ltb, if◌then◌else◌, get_or, length, set,
}
use moviehouse.Peer.Message.{block_size}
use moviehouse.Piece.Progress
use moviehouse.Piece.Progress.{PieceProgress, block_length, flag, blocks_of}
use moviehouse.Piece.Progress.Valid.{IsValid, new-IsValid, flag-replicate}
use moviehouse.Prelude.Assoc.{find, put, remove}
use moviehouse.Piece.Picker.{
  PiecePicker, BlockResult, duplicate, progress, piece_complete, overwrite,
}

pub length-overwrite :
    (xs : List ℕ) (start : ℕ) (bytes : List ℕ) → length (overwrite xs start bytes) ≡ length xs
unfolding overwrite
length-overwrite [] start bytes = refl
length-overwrite (x ∷ xs) zero [] = refl
length-overwrite (x ∷ xs) zero (b ∷ bytes) = ap suc (length-overwrite xs zero bytes)
length-overwrite (x ∷ xs) (suc start) bytes = ap suc (length-overwrite xs start bytes)

pub get_or-overwrite :
    (xs : List ℕ) (start : ℕ) (bytes : List ℕ) (k : ℕ)
    → k < length xs
    → get_or (overwrite xs start bytes) k 0 ≡ (
        if ltb k start
        then get_or xs k 0
        else if ltb k (start + length bytes)
        then get_or bytes (k - start) 0
        else get_or xs k 0)
unfolding overwrite
get_or-overwrite [] start bytes k h = elim h [ ]
get_or-overwrite (x ∷ xs) zero [] k h = ground arith
get_or-overwrite (x ∷ xs) zero (b ∷ bytes) zero h = ground arith
get_or-overwrite (x ∷ xs) zero (b ∷ bytes) (suc k) h =
    ground (arith, get_or-overwrite xs zero bytes k (omega arith))
get_or-overwrite (x ∷ xs) (suc start) bytes zero h = ground arith
get_or-overwrite (x ∷ xs) (suc start) bytes (suc k) h =
    ground (arith, get_or-overwrite xs start bytes k (omega arith))

-- A progress whose received blocks hold the bytes of `content`.
pub record Holds (content : List ℕ) (q : PieceProgress) : Type 0 where
  pub valid : IsValid q
  pub full_length : length content ≡ q.piece_length
  pub matches :
      (k : ℕ)
      → k < q.piece_length
      → flag q.blocks_received (k / block_size) ≡ true
      → get_or q.buffer k 0 ≡ get_or content k 0

-- At first there is no received block.
pub new-Holds : (content : List ℕ) → Holds content (Progress.new (length content))
unfolding Progress.new
new-Holds content = record {
  valid = new-IsValid (length content);
  full_length = refl;
  matches =
      λ k lt on. absurd (cc (on, flag-replicate (blocks_of (length content)) (k / block_size)));
}

-- What is asked for in the block: its bytes, all of them.
pub record IsBlock (content : List ℕ) (q : PieceProgress) (i : ℕ) (bytes : List ℕ) : Type 0 where
  pub within : i < q.num_blocks
  pub size : length bytes ≡ block_length q i
  pub bytes_of :
      (j : ℕ) → j < length bytes → get_or bytes j 0 ≡ get_or content (i * block_size + j) 0

-- The last byte of a block is in the piece.
pub block_end :
    (q : PieceProgress) (i : ℕ)
    → IsValid q
    → i < q.num_blocks
    → i * block_size + block_length q i ≤ q.piece_length
unfolding block_length
block_end q i v lt = ground (arith, v.blocks)

-- Each byte of the piece is in its block.
pub in_block :
    (q : PieceProgress) (k : ℕ)
    → IsValid q
    → k < q.piece_length
    → (k / block_size < q.num_blocks)
      × (k < k / block_size * block_size + block_length q (k / block_size))
unfolding block_length
in_block q k v lt = ground (arith, v.blocks)

-- What `block_received` makes of the progress of the piece, when the block is a new one.
abbrev pub stored : PieceProgress → ℕ → List ℕ → PieceProgress
stored q i bytes = record q {
  blocks_received = set q.blocks_received i true;
  blocks_assigned = set q.blocks_assigned i true;
  received_count = q.received_count + 1;
  assign_cursor = 0;
  buffer = overwrite q.buffer (i * block_size) bytes;
}

-- What comes of a block with the right bytes: nothing, as it was there; the progress with the block;
-- or the whole piece.
pub data Received (content : List ℕ) (p : PiecePicker) (piece block : ℕ)
    : PiecePicker × BlockResult → Type 0 where
  repeated :
      (q : PieceProgress)
      → find piece p.in_progress ≡ some q
      → flag q.blocks_received block ≡ true
      → Received content p piece block (p, duplicate)
  further :
      (q : PieceProgress) (n : ℕ)
      → Holds content q
      → flag q.blocks_received block ≡ true
      → Progress.is_complete q ≡ false
      → Received content p piece block
          (record p { in_progress = put piece q p.in_progress }, progress n)
  whole :
      Received content p piece block
        (record p { in_progress = remove piece p.in_progress }, piece_complete content)
