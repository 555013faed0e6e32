-- ===== src/Piece/Bitfield.antt =====
-- src/piece/bitfield.rs: which pieces a peer has, a bit for each, the first in the highest bit.
-- `none` is the panic of an index that is out of bounds.
pub mod Bits
pub mod Valid
pub mod Updates
use Prim.Native.Nat.{bit_and, bit_or}
use moviehouse.Prelude.{
  ℕ, zero, suc, ◌+◌, ◌-◌, ◌*◌, ◌/◌, ◌%◌, ◌^◌, List, [], ◌∷◌, ◌++◌, Bool, true, false, not, ◌&&◌,
  Option, none, some, leb, ltb, ◌==◌, if◌then◌else◌, length, get_elem?, get_or, set, replicate,
}

pub record Bitfield : Type 0 where
  pub bits : List ℕ
  pub num_pieces : ℕ
  pub count : ℕ

-- `num_pieces.div_ceil(8)`
abbrev pub byte_len : ℕ → ℕ
byte_len n = (n + 7) / 8

unfoldable pub new : ℕ → Bitfield
new n = record { bits = replicate (byte_len n) 0; num_pieces = n; count = 0 }

-- `1 << (7 - (index % 8))`
abbrev pub mask : ℕ → ℕ
mask index = 2 ^ (7 - index % 8)

unfoldable pub test_bit : ℕ → ℕ → Bool
test_bit byte index = not (bit_and byte (mask index) == 0)

unfoldable pub has : Bitfield → ℕ → Option Bool
unfolding test_bit
has bf index =
    if leb bf.num_pieces index then some false else elim (get_elem? bf.bits (index / 8)) [
      | none ↦ none
      | some byte ↦ some (test_bit byte index)
    ]

-- The loop of `count_set_bits` over the indices below `n`.
unfoldable pub count_below : Bitfield → ℕ → Option ℕ
count_below bf zero = some 0
count_below bf (suc n) = elim (count_below bf n) [
  | none ↦ none
  | some c ↦ elim (has bf n) [ none ↦ none | some b ↦ some (if b then c + 1 else c) ]
]

unfoldable pub count_set_bits : Bitfield → Option ℕ
count_set_bits bf = count_below bf bf.num_pieces

unfoldable pub from_bytes : List ℕ → ℕ → Option Bitfield
unfolding count_set_bits
from_bytes bytes n =
    let bf : Bitfield = record { bits = bytes; num_pieces = n; count = 0 } in
    elim (count_set_bits bf) [ none ↦ none | some c ↦ some (record bf { count = c }) ]

-- `self.bits[index / 8] |= …; self.count += 1`, where the bit is not set.
unfoldable pub set_bit : Bitfield → ℕ → Bitfield
set_bit bf index = record bf {
  bits = set bf.bits (index / 8) (bit_or (get_or bf.bits (index / 8) 0) (mask index));
  count = bf.count + 1;
}

unfoldable pub set_piece : Bitfield → ℕ → Option Bitfield
unfolding set_bit
set_piece bf index =
    if leb bf.num_pieces index
    then some bf
    else elim (has bf index) [ none ↦ none | some b ↦ some (if b then bf else set_bit bf index) ]

unfoldable pub is_complete : Bitfield → Bool
is_complete bf = bf.count == bf.num_pieces

-- `has`, where it does not panic.
unfoldable pub holds : Bitfield → ℕ → Bool
holds bf index = elim (has bf index) [ none ↦ false | some b ↦ b ]

-- `set`, where it does not panic.
unfoldable pub with_piece : Bitfield → ℕ → Bitfield
with_piece bf index =
    if leb bf.num_pieces index then bf else if holds bf index then bf else set_bit bf index

-- The indices below `n` that are set, or that are not, in ascending order.
unfoldable pub indices_below : Bitfield → Bool → ℕ → List ℕ
indices_below bf wanted zero = []
indices_below bf wanted (suc n) =
    let before = indices_below bf wanted n in
    if wanted
    then (if holds bf n then before ++ n ∷ [] else before)
    else if holds bf n
    then before
    else before ++ n ∷ []

unfoldable pub set_indices : Bitfield → List ℕ
unfolding indices_below
set_indices bf = indices_below bf true bf.num_pieces

unfoldable pub missing_indices : Bitfield → List ℕ
unfolding indices_below
missing_indices bf = indices_below bf false bf.num_pieces
