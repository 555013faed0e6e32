-- ===== src/Piece/Progress/Valid.antt =====
-- src/piece/picker.rs: when a `PieceProgress` is valid, and its search for a free block.
use moviehouse.Prelude.{
  ℕ, zero, suc, ◌+◌, ◌-◌, ◌≤◌, ◌<◌, ◌≡◌, refl, sym, arith, List, [], ◌∷◌, Bool, true, false, Option,
  none, some, ltb, ◌==◌, if◌then◌else◌, length, length-replicate, set, replicate, le_or_lt, inl,
  inr, Bool-cases,
}
use moviehouse.Prelude.Count.{count_true}
use moviehouse.Piece.Progress.{
  PieceProgress, blocks_of, new, flag, is_free, assign_loop, assign_next_block,
}

-- Every block before the cursor is spoken for.
abbrev pub Scanned : PieceProgress → Type 0
Scanned p = (i : ℕ) → i < p.assign_cursor → is_free p i ≡ false

pub record IsValid (p : PieceProgress) : Type 0 where
  pub blocks : p.num_blocks ≡ blocks_of p.piece_length
  pub received_size : length p.blocks_received ≡ p.num_blocks
  pub assigned_size : length p.blocks_assigned ≡ p.num_blocks
  pub counted : p.received_count ≡ count_true (flag p.blocks_received) p.num_blocks
  pub buffer_size : length p.buffer ≡ p.piece_length
  pub scanned : Scanned p

pub flag-set :
    (fs : List Bool) (i j : ℕ) (b : Bool)
    → i < length fs
    → flag (set fs i b) j ≡ (if i == j then b else flag fs j)
flag-set [] i j b h = elim h [ ]
flag-set (x ∷ fs) zero zero b h = refl
flag-set (x ∷ fs) zero (suc j) b h = ground arith
flag-set (x ∷ fs) (suc i) zero b h = ground arith
flag-set (x ∷ fs) (suc i) (suc j) b h = ground (arith, flag-set fs i j b)

pub flag-replicate : (n i : ℕ) → flag (replicate n false) i ≡ false
flag-replicate zero i = refl
flag-replicate (suc n) zero = refl
flag-replicate (suc n) (suc i) = flag-replicate n i

none_received : (n m : ℕ) → count_true (flag (replicate n false)) m ≡ 0
unfolding count_true
none_received n zero = refl
none_received n (suc m) = ground (arith, flag-replicate n m, none_received n m)

pub new-IsValid : (len : ℕ) → IsValid (new len)
unfolding new
new-IsValid len = record {
  blocks = refl;
  received_size = length-replicate (blocks_of len) false;
  assigned_size = length-replicate (blocks_of len) false;
  counted = sym (none_received (blocks_of len) (blocks_of len));
  buffer_size = length-replicate len 0;
  scanned = λ i h. absurd (omega arith);
}

-- What a search for a free block does: the first free block is assigned and the cursor is behind
-- it, or there is none and only the cursor moves, over blocks that are not free.
pub data Assigns (p : PieceProgress) : PieceProgress × Option ℕ → Type 0 where
  found :
      (i : ℕ)
      → i < p.num_blocks
      → is_free p i ≡ true
      → ((j : ℕ) → j < i → is_free p j ≡ false)
      → Assigns p (
        record p { blocks_assigned = set p.blocks_assigned i true; assign_cursor = i + 1 },
        some i,
      )
  exhausted :
      (c : ℕ)
      → ((i : ℕ) → i < p.num_blocks → is_free p i ≡ false)
      → ((i : ℕ) → i < c → is_free p i ≡ false)
      → Assigns p (record p { assign_cursor = c }, none)

assign_loop-Assigns :
    (fuel : ℕ) (p : PieceProgress)
    → Scanned p
    → p.num_blocks ≤ p.assign_cursor + fuel
    → Assigns p (assign_loop fuel p)
unfolding assign_loop
assign_loop-Assigns zero p h enough = exhausted p.assign_cursor (λ i lt. h i (omega arith)) h
assign_loop-Assigns (suc fuel) p h enough = elim (le_or_lt p.num_blocks p.assign_cursor) [
  | inl done ↦
      let e : ltb p.assign_cursor p.num_blocks ≡ false = ground arith in
      rw e (exhausted p.assign_cursor (λ i lt. h i (omega arith)) h)
  | inr more ↦
      let e : ltb p.assign_cursor p.num_blocks ≡ true = ground arith in
      rw e (elim (Bool-cases (is_free p p.assign_cursor)) [
        | inl free ↦ rw free (found p.assign_cursor more free h)
        | inr busy ↦ rw busy (
            later p (
              assign_loop-Assigns fuel (record p { assign_cursor = p.assign_cursor + 1 })
                (further p h busy) (omega arith)))
      ])
]
  where
    further :
        (p : PieceProgress)
        → Scanned p
        → is_free p p.assign_cursor ≡ false
        → (i : ℕ) → i < p.assign_cursor + 1
        → is_free p i ≡ false
    further p h busy i lt = elim (le_or_lt p.assign_cursor i) [
      | inl at ↦ let e : p.assign_cursor ≡ i = omega arith in rw e at busy
      | inr before ↦ h i before
    ]

    later :
        (p : PieceProgress) {r : PieceProgress × Option ℕ}
        → Assigns (record p { assign_cursor = p.assign_cursor + 1 }) r
        → Assigns p r
    later p (found i lt free first) = found i lt free first
    later p (exhausted c all past) = exhausted c all past

-- On a valid progress `assign_next_block` assigns the first free block and returns it, or returns none because every
-- block of the piece has been received or is assigned: no free block is skipped.
pub assign_next_block-Assigns : (p : PieceProgress) → IsValid p → Assigns p (assign_next_block p)
unfolding assign_next_block
assign_next_block-Assigns p v =
    assign_loop-Assigns (p.num_blocks - p.assign_cursor) p v.scanned (omega arith)
