-- ===== src/Piece/Bitfield/Valid.antt =====
-- src/piece/bitfield.rs: when a bitfield is valid, and `from_bytes`.
use moviehouse.Prelude.{
  ℕ, zero, suc, ◌*◌, ◌/◌, ◌≤◌, ◌<◌, ◌≡◌, ◌↔◌, refl, sym, ap, ◌∙◌, arith, List, [], ◌∷◌, false, none,
  some, leb, ◌==◌, if◌then◌else◌, length, get_elem?, get_or, set, AllBytes, le_or_lt, inl, inr,
}
use moviehouse.Prelude.Count.{count_true, count_true-congr}
use moviehouse.Piece.Bitfield.{Bitfield, test_bit, has, holds, count_below, from_bytes}

pub record IsValid (bf : Bitfield) : Type 0 where
  pub enough : bf.num_pieces ≤ 8 * length bf.bits
  pub bytes : AllBytes bf.bits
  pub counted : bf.count ≡ count_true (holds bf) bf.num_pieces

get_elem?-get_or : (xs : List ℕ) (i : ℕ) → i < length xs → get_elem? xs i ≡ some (get_or xs i 0)
get_elem?-get_or [] i h = elim h [ ]
get_elem?-get_or (x ∷ xs) zero h = refl
get_elem?-get_or (x ∷ xs) (suc i) h = get_elem?-get_or xs i (omega arith)

get_elem?-none : (xs : List ℕ) (i : ℕ) → length xs ≤ i → get_elem? xs i ≡ none
get_elem?-none [] i h = refl
get_elem?-none (x ∷ xs) zero h = absurd (omega arith)
get_elem?-none (x ∷ xs) (suc i) h = get_elem?-none xs i (omega arith)

pub byte_at : (xs : List ℕ) (i : ℕ) → AllBytes xs → get_or xs i 0 < 256
byte_at [] i h = omega arith
byte_at (x ∷ xs) zero h = h.0
byte_at (x ∷ xs) (suc i) h = byte_at xs i h.1

pub AllBytes-set : (xs : List ℕ) (i v : ℕ) → AllBytes xs → v < 256 → AllBytes (set xs i v)
AllBytes-set [] i v h hv = tt
AllBytes-set (x ∷ xs) zero v h hv = (hv, h.1)
AllBytes-set (x ∷ xs) (suc i) v h hv = (h.0, AllBytes-set xs i v h.1 hv)

pub get_or-set :
    (xs : List ℕ) (i j v : ℕ)
    → i < length xs
    → get_or (set xs i v) j 0 ≡ (if i == j then v else get_or xs j 0)
get_or-set [] i j v h = elim h [ ]
get_or-set (x ∷ xs) zero zero v h = refl
get_or-set (x ∷ xs) zero (suc j) v h = ground arith
get_or-set (x ∷ xs) (suc i) zero v h = ground arith
get_or-set (x ∷ xs) (suc i) (suc j) v h = ground (arith, get_or-set xs i j v)

-- The bit of a piece, where there are enough bytes.
pub has-enough :
    (bf : Bitfield) (i : ℕ)
    → bf.num_pieces ≤ 8 * length bf.bits
    → has bf i ≡ some (if leb bf.num_pieces i then false else test_bit (get_or bf.bits (i / 8) 0) i)
unfolding has
has-enough bf i h = elim (le_or_lt bf.num_pieces i) [
  | inl beyond ↦ ground arith
  | inr within ↦ ground (arith, get_elem?-get_or bf.bits (i / 8) (omega arith))
]

pub holds-enough :
    (bf : Bitfield) (i : ℕ)
    → bf.num_pieces ≤ 8 * length bf.bits
    → holds bf i ≡ (if leb bf.num_pieces i then false else test_bit (get_or bf.bits (i / 8) 0) i)
unfolding holds
holds-enough bf i h = rw (has-enough bf i h, holds)

-- No test of a piece panics.
pub has-holds :
    (bf : Bitfield) (i : ℕ) → bf.num_pieces ≤ 8 * length bf.bits → has bf i ≡ some (holds bf i)
has-holds bf i h = has-enough bf i h ∙ ap some (sym (holds-enough bf i h))

count_below-holds :
    (bf : Bitfield) (n : ℕ)
    → bf.num_pieces ≤ 8 * length bf.bits
    → count_below bf n ≡ some (count_true (holds bf) n)
unfolding count_below count_true
count_below-holds bf zero h = refl
count_below-holds bf (suc n) h = ground (arith, count_below-holds bf n h, has-holds bf n h)

-- With too few bytes the first index beyond them panics.
has-short :
    (bf : Bitfield) → 8 * length bf.bits < bf.num_pieces → has bf (8 * length bf.bits) ≡ none
unfolding has
has-short bf h =
    let at : 8 * length bf.bits / 8 ≡ length bf.bits = omega arith in
    ground (arith, get_elem?-none bf.bits (8 * length bf.bits / 8) (omega arith))

count_below-short :
    (bf : Bitfield) (n : ℕ) → has bf n ≡ none → (m : ℕ) → n < m → count_below bf m ≡ none
unfolding count_below
count_below-short bf n h zero lt = absurd (omega arith)
count_below-short bf n h (suc m) lt = elim (le_or_lt m n) [
  | inl last ↦ let e : n ≡ m = omega arith in let h' : has bf m ≡ none = rw e at h in ground arith
  | inr before ↦ ground (arith, count_below-short bf n h m before)
]

same_bits : (bf : Bitfield) (c j : ℕ) → holds bf j ≡ holds (record bf { count = c }) j
unfolding holds has
same_bits bf c j = refl

pub from_bytes-short : (bytes : List ℕ) (n : ℕ) → 8 * length bytes < n → from_bytes bytes n ≡ none
unfolding from_bytes
from_bytes-short bytes n h =
    let bf : Bitfield = record { bits = bytes; num_pieces = n; count = 0 } in
    rw (count_below-short bf (8 * length bytes) (has-short bf h) n h, from_bytes)

-- With bytes for all pieces `from_bytes` returns a valid bitfield of just these bytes and pieces.
pub from_bytes-enough :
    (bytes : List ℕ) (n : ℕ)
    → n ≤ 8 * length bytes
    → AllBytes bytes
    → (bf : Bitfield) × (from_bytes bytes n ≡ some bf)
      × IsValid bf
      × (bf.bits ≡ bytes)
      × (bf.num_pieces ≡ n)
unfolding from_bytes
from_bytes-enough bytes n h hb =
    let raw : Bitfield = record { bits = bytes; num_pieces = n; count = 0 } in
    let c = count_true (holds raw) n in
    let bf : Bitfield = record raw { count = c } in
    (
      bf,
      rw (count_below-holds raw n h, from_bytes),
      record {
        enough = h;
        bytes = hb;
        counted = count_true-congr _ _ n (λ j lt. same_bits raw c j);
      },
      refl,
      refl,
    )

-- `from_bytes` panics exactly when there are fewer bits than pieces, whatever the bytes are.
pub from_bytes_iff :
    (bytes : List ℕ) (n : ℕ) → AllBytes bytes → (from_bytes bytes n ≡ none) ↔ (8 * length bytes < n)
from_bytes_iff bytes n hb = (only_if, from_bytes-short bytes n)
  where
    only_if : from_bytes bytes n ≡ none → 8 * length bytes < n
    only_if e = elim (le_or_lt n (8 * length bytes)) [
      | inr short ↦ short
      | inl long ↦ cc (e, (from_bytes-enough bytes n long hb).1)
    ]
