-- ===== src/Piece/Bitfield/Updates.antt =====
-- src/piece/bitfield.rs: the empty bitfield, `set` and `is_complete`.
use Prim.Native.Nat.{bit_and, bit_or, bit_and-bitwise}
use moviehouse.Prelude.{
  ℕ, zero, suc, ◌*◌, ◌/◌, ◌≤◌, ◌<◌, ◌≡◌, ◌↔◌, refl, sym, arith, ◌&&◌, Bool, true, false, some, leb,
  ltb, ◌==◌, if◌then◌else◌, length, length-set, length-replicate, get_or, replicate, AllBytes,
  le_or_lt, inl, inr, Bool-cases,
}
use moviehouse.Prelude.Count.{count_true, count_true-set, count_true-full, full-count_true}
use moviehouse.Piece.Bitfield.{
  Bitfield, byte_len, new, mask, test_bit, holds, set_bit, set_piece, with_piece, is_complete,
}
use moviehouse.Piece.Bitfield.Valid.{
  IsValid, get_or-set, byte_at, AllBytes-set, has-holds, holds-enough,
}
use moviehouse.Piece.Bitfield.Bits.{bit_or-lt, test_bit-bit_or}

AllBytes-replicate : (n : ℕ) → AllBytes (replicate n 0)
AllBytes-replicate zero = tt
AllBytes-replicate (suc n) = (omega arith, AllBytes-replicate n)

get_or-replicate : (n i : ℕ) → ◌≡◌ {A = ℕ} (get_or (replicate n 0) i 0) 0
get_or-replicate zero i = refl
get_or-replicate (suc n) zero = refl
get_or-replicate (suc n) (suc i) = get_or-replicate n i

new_enough : (n : ℕ) → n ≤ 8 * length (new n).bits
unfolding new
new_enough n = omega (arith, length-replicate {A = ℕ} (byte_len n) 0)

test_bit-zero : (i : ℕ) → test_bit 0 i ≡ false
unfolding test_bit
test_bit-zero i = let e : bit_and 0 (mask i) ≡ 0 = bit_and-bitwise 0 (mask i) in rw e

-- Nothing is set at first.
pub holds-new : (n i : ℕ) → holds (new n) i ≡ false
unfolding new
holds-new n i =
    let bf : Bitfield = new n in
    let none_set : test_bit (get_or bf.bits (i / 8) 0) i ≡ false =
      rw (get_or-replicate (byte_len n) (i / 8)) (test_bit-zero i) in
    ground (arith, holds-enough bf i (new_enough n))

count_true-none : (f : ℕ → Bool) (n : ℕ) → ((j : ℕ) → f j ≡ false) → count_true f n ≡ 0
unfolding count_true
count_true-none f zero h = refl
count_true-none f (suc n) h = ground (arith, h n, count_true-none f n h)

pub new-IsValid : (n : ℕ) → IsValid (new n)
unfolding new
new-IsValid n = record {
  enough = new_enough n;
  bytes = AllBytes-replicate (byte_len n);
  counted = sym (count_true-none (holds (new n)) n (holds-new n));
}

module _ (bf : Bitfield) (v : IsValid bf) (i : ℕ) (within : i < bf.num_pieces) where
  set_bit_enough : bf.num_pieces ≤ 8 * length (set_bit bf i).bits
  unfolding set_bit
  set_bit_enough = rw length-set v.enough

  pub holds-set_bit : (j : ℕ) → holds (set_bit bf i) j ≡ (if i == j then true else holds bf j)
  holds-set_bit j =
      let byte = get_or bf.bits (i / 8) 0 in
      let size : i / 8 < length bf.bits = omega (arith, v.enough) in
      unfold set_bit in
      ground (
        arith,
        holds-enough (set_bit bf i) j set_bit_enough,
        holds-enough bf j v.enough,
        get_or-set bf.bits (i / 8) (j / 8) (bit_or byte (mask i)) size,
        test_bit-bit_or byte i j (byte_at bf.bits (i / 8) v.bytes),
      )

  set_bit-IsValid : holds bf i ≡ false → IsValid (set_bit bf i)
  set_bit-IsValid off =
      let more =
        count_true-set (holds bf) (holds (set_bit bf i)) i bf.num_pieces off holds-set_bit within in
      unfold set_bit in
      record {
        enough = set_bit_enough;
        bytes =
            AllBytes-set bf.bits (i / 8) _ v.bytes
              (bit_or-lt (get_or bf.bits (i / 8) 0) i (byte_at bf.bits (i / 8) v.bytes));
        counted = omega (arith, v.counted, more);
      }

module _ (bf : Bitfield) (v : IsValid bf) (i : ℕ) where
  -- `set` never panics.
  pub set_piece-with_piece : set_piece bf i ≡ some (with_piece bf i)
  unfolding set_piece with_piece
  set_piece-with_piece = ground (arith, has-holds bf i v.enough)

  pub with_piece-IsValid : IsValid (with_piece bf i)
  unfolding with_piece
  with_piece-IsValid = elim (le_or_lt bf.num_pieces i) [
    | inl beyond ↦ let e : leb bf.num_pieces i ≡ true = ground arith in rw e v
    | inr within ↦
        let e : leb bf.num_pieces i ≡ false = ground arith in
        rw e (elim (Bool-cases (holds bf i)) [
          | inl on ↦ rw on v
          | inr off ↦ rw off (set_bit-IsValid bf v i within off)
        ])
  ]

  pub num_pieces-with_piece : (with_piece bf i).num_pieces ≡ bf.num_pieces
  unfolding with_piece set_bit
  num_pieces-with_piece = ground arith

  -- After `set` the piece is there, if the torrent has it, and nothing else has changed.
  pub holds-with_piece :
      (j : ℕ)
      → holds (with_piece bf i) j ≡ (if i == j && ltb i bf.num_pieces then true else holds bf j)
  unfolding with_piece
  holds-with_piece j = elim (le_or_lt bf.num_pieces i) [
    | inl beyond ↦ ground arith
    | inr within ↦ elim (Bool-cases (i == j)) [
      | inl same ↦
          let e : i ≡ j = ground arith in rw (← e) (ground (arith, holds-set_bit bf v i within i))
      | inr other ↦ ground (arith, holds-set_bit bf v i within j)
    ]
  ]

-- The count of a valid bitfield says whether every piece is there.
pub is_complete_iff :
    (bf : Bitfield)
    → IsValid bf
    → (is_complete bf ≡ true) ↔ ((j : ℕ) → j < bf.num_pieces → holds bf j ≡ true)
unfolding is_complete
is_complete_iff bf v = (
  λ e. count_true-full (holds bf) bf.num_pieces (ground (arith, v.counted)),
  λ all. ground (arith, v.counted, full-count_true (holds bf) bf.num_pieces all),
)

-- `set` never panics on a valid bitfield. The bitfield that it returns is valid, of as many pieces,
-- and has the piece that was set, if the torrent has it, beside the pieces it had.
pub set_piece-Adds :
    (bf : Bitfield) (i : ℕ)
    → IsValid bf
    → (bf' : Bitfield) × (set_piece bf i ≡ some bf')
      × IsValid bf'
      × (bf'.num_pieces ≡ bf.num_pieces)
      × ((j : ℕ) → holds bf' j ≡ (if i == j && ltb i bf.num_pieces then true else holds bf j))
set_piece-Adds bf i v = (
  with_piece bf i,
  set_piece-with_piece bf v i,
  with_piece-IsValid bf v i,
  num_pieces-with_piece bf v i,
  holds-with_piece bf v i,
)
