-- ===== src/Piece/Picker/Blocks.antt =====
-- src/piece/picker.rs: the states of a `PieceProgress` under all that the picker writes to it.
use moviehouse.Prelude.{ℕ, ◌≡◌, List, some}
use moviehouse.Piece.Progress.{
  PieceProgress, new, assign_next_block, mark_received, mark_unassigned,
}
use moviehouse.Piece.Progress.Valid.{IsValid, new-IsValid}
use moviehouse.Piece.Progress.Updates.{
  assign_next_block-IsValid, mark_received-IsValid, mark_unassigned-IsValid,
}
use moviehouse.Piece.Progress.Indexing.{
  mark_received_indexed, mark_unassigned_indexed, assign_next_block_indexed, mark_received-Indexes,
  mark_unassigned-Indexes, assign_next_block-Indexes,
}
use moviehouse.Piece.Picker.{more_active, store_block}
use moviehouse.Piece.Picker.Verified.{store_block-IsValid}

-- `joined` is the count of `active_peers` in `pick_block`, and `stored` the copy of a block into the
-- buffer in `block_received`, of any bytes at any offset.
pub data Reachable : PieceProgress → Type 0 where
  started : (len : ℕ) → Reachable (new len)
  assigned : (p : PieceProgress) → Reachable p → Reachable (assign_next_block p).0
  joined :
      (p : PieceProgress)
      → Reachable p
      → Reachable (record p { active_peers = more_active p.active_peers })
  received : (p : PieceProgress) (i : ℕ) → Reachable p → Reachable (mark_received p i).0
  stored :
      (p : PieceProgress) (offset : ℕ) (bytes : List ℕ)
      → Reachable p
      → Reachable (store_block p offset bytes)
  unassigned : (p : PieceProgress) (i : ℕ) → Reachable p → Reachable (mark_unassigned p i)

joined-IsValid : (p : PieceProgress) (n : ℕ) → IsValid p → IsValid (record p { active_peers = n })
joined-IsValid p n v = record {
  blocks = v.blocks;
  received_size = v.received_size;
  assigned_size = v.assigned_size;
  counted = v.counted;
  buffer_size = v.buffer_size;
  scanned = v.scanned;
}

-- In every state that a progress reaches by the writes of the picker, in any order, its flags cover
-- the blocks of the piece, its count is that of the received blocks, its buffer has the length of the
-- piece, and no free block is behind the cursor.
pub Reachable-IsValid : (p : PieceProgress) → Reachable p → IsValid p
Reachable-IsValid p (started len) = new-IsValid len
Reachable-IsValid p (assigned q h) = assign_next_block-IsValid q (Reachable-IsValid q h)
Reachable-IsValid p (joined q h) =
    joined-IsValid q (more_active q.active_peers) (Reachable-IsValid q h)
Reachable-IsValid p (received q i h) = mark_received-IsValid q i (Reachable-IsValid q h)
Reachable-IsValid p (stored q offset bytes h) =
    store_block-IsValid q offset bytes (Reachable-IsValid q h)
Reachable-IsValid p (unassigned q i h) = mark_unassigned-IsValid q i (Reachable-IsValid q h)

-- In every state that a progress reaches, its operations on blocks do not panic on an index of the
-- flags, whatever block they are called with: with the panics written out they return, and return
-- what the operations do without.
pub Reachable-Indexes :
    (p : PieceProgress) (i : ℕ)
    → Reachable p
    → (mark_received_indexed p i ≡ some (mark_received p i))
      × (mark_unassigned_indexed p i ≡ some (mark_unassigned p i))
      × (assign_next_block_indexed p ≡ some (assign_next_block p))
Reachable-Indexes p i h =
    let v = Reachable-IsValid p h in
    (mark_received-Indexes p i v, mark_unassigned-Indexes p i v, assign_next_block-Indexes p v)
