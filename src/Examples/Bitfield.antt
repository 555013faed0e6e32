-- ===== src/Examples/Bitfield.antt =====
-- src/piece/bitfield.rs: the theorems on bitfields, at concrete ones.
use moviehouse.Prelude.{
  ℕ, ◌<◌, ◌≡◌, ◌↔◌, [], ◌∷◌, true, none, some, arith, if◌then◌else◌, ◌&&◌, ltb, ◌==◌,
}
use moviehouse.Piece.Bitfield.{Bitfield, new, from_bytes, holds, set_piece, is_complete}
use moviehouse.Piece.Bitfield.Valid.{IsValid, from_bytes_iff, from_bytes-enough}
use moviehouse.Piece.Bitfield.Updates.{set_piece-Adds, is_complete_iff, new-IsValid}

-- One byte, for nine pieces.
from_bytes_iff_example : (from_bytes (128 ∷ []) 9 ≡ none) ↔ (8 < 9)
from_bytes_iff_example = from_bytes_iff (128 ∷ []) 9 (omega arith)

from_bytes-enough_example :
    (bf : Bitfield) × (from_bytes (128 ∷ 64 ∷ []) 10 ≡ some bf)
    × IsValid bf
    × (bf.bits ≡ 128 ∷ 64 ∷ [])
    × (bf.num_pieces ≡ 10)
from_bytes-enough_example = from_bytes-enough (128 ∷ 64 ∷ []) 10 (omega arith) (omega arith)

abbrev ten_pieces : Bitfield
ten_pieces = new 10

set_piece-Adds_example :
    (bf' : Bitfield) × (set_piece ten_pieces 9 ≡ some bf')
    × IsValid bf'
    × (bf'.num_pieces ≡ ten_pieces.num_pieces)
    × ((j : ℕ)
        → holds bf' j
          ≡ (if 9 == j && ltb 9 ten_pieces.num_pieces then true else holds ten_pieces j))
set_piece-Adds_example = set_piece-Adds ten_pieces 9 (new-IsValid 10)

is_complete_iff_example :
    (is_complete ten_pieces ≡ true)
    ↔ ((j : ℕ) → j < ten_pieces.num_pieces → holds ten_pieces j ≡ true)
is_complete_iff_example = is_complete_iff ten_pieces (new-IsValid 10)
