-- ===== src/Piece/Store.antt =====
-- src/piece/store.rs: `PieceStore`, the hashes of the pieces. The hash function is an argument.
use moviehouse.Prelude.{ℕ, List, Bool, false, none, some, get_elem?, eq_bytes, length}

pub record PieceStore : Type 0 where
  pub piece_hashes : List (List ℕ)

module _ (sha1 : List ℕ → List ℕ) where
  unfoldable pub verify : PieceStore → ℕ → List ℕ → Bool
  verify store piece_index bytes = elim (get_elem? store.piece_hashes piece_index) [
    | none ↦ false
    | some expected ↦ eq_bytes (sha1 bytes) expected
  ]

unfoldable pub num_pieces : PieceStore → ℕ
num_pieces store = length store.piece_hashes
