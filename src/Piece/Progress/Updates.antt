-- ===== src/Piece/Progress/Updates.antt =====
-- src/piece/picker.rs: the states of a `PieceProgress`.
use moviehouse.Prelude.{
  ℕ, ◌+◌, ◌<◌, ◌≡◌, ◌↔◌, arith, Bool, true, false, Option, leb, ltb, ◌==◌, if◌then◌else◌, length,
  length-set, set, min, le_or_lt, inl, inr, Bool-cases,
}
use moviehouse.Prelude.Count.{count_true-set, count_true-full, full-count_true}
use moviehouse.Piece.Progress.{
  PieceProgress, is_complete, flag, is_free, assign_next_block, mark_received, mark_unassigned,
}
use moviehouse.Piece.Progress.Valid.{
  IsValid, flag-set, Assigns, found, exhausted, assign_next_block-Assigns,
}

-- What has not been received, in a valid progress.
module _ (p : PieceProgress) (v : IsValid p) (i : ℕ) (within : i < p.num_blocks) where
  flag-received :
      (j : ℕ)
      → flag (set p.blocks_received i true) j ≡ (if i == j then true else flag p.blocks_received j)
  flag-received j = flag-set p.blocks_received i j true (omega (arith, v.received_size))

  flag-assigned :
      (b : Bool) (j : ℕ)
      → flag (set p.blocks_assigned i b) j ≡ (if i == j then b else flag p.blocks_assigned j)
  flag-assigned b j = flag-set p.blocks_assigned i j b (omega (arith, v.assigned_size))

  pub received_IsValid :
      flag p.blocks_received i ≡ false
      → IsValid (record p {
        blocks_received = set p.blocks_received i true;
        blocks_assigned = set p.blocks_assigned i true;
        received_count = p.received_count + 1;
        assign_cursor = 0;
      })
  received_IsValid off =
      let more =
        count_true-set (flag p.blocks_received) (flag (set p.blocks_received i true)) i p.num_blocks
          off flag-received within in
      record {
        blocks = v.blocks;
        received_size = rw length-set v.received_size;
        assigned_size = rw length-set v.assigned_size;
        counted = omega (arith, v.counted, more);
        buffer_size = v.buffer_size;
        scanned = λ j lt. absurd (omega arith);
      }

  unassigned_IsValid : IsValid (record p {
    blocks_assigned = set p.blocks_assigned i false;
    assign_cursor = min p.assign_cursor i;
  })
  unassigned_IsValid = record {
    blocks = v.blocks;
    received_size = v.received_size;
    assigned_size = rw length-set v.assigned_size;
    counted = v.counted;
    buffer_size = v.buffer_size;
    scanned = λ j lt. ground (arith, flag-assigned false j, v.scanned j (omega arith));
  }

  assigned_IsValid :
      ((j : ℕ) → j < i → is_free p j ≡ false)
      → IsValid (record p { blocks_assigned = set p.blocks_assigned i true; assign_cursor = i + 1 })
  assigned_IsValid first = record {
    blocks = v.blocks;
    received_size = v.received_size;
    assigned_size = rw length-set v.assigned_size;
    counted = v.counted;
    buffer_size = v.buffer_size;
    scanned = λ j lt. elim (le_or_lt i j) [
      | inl at ↦ ground (arith, flag-assigned true j)
      | inr before ↦ ground (arith, flag-assigned true j, first j before)
    ];
  }

Assigns-IsValid :
    (p : PieceProgress) → IsValid p → {r : PieceProgress × Option ℕ} → Assigns p r → IsValid r.0
Assigns-IsValid p v (found i lt free first) = assigned_IsValid p v i lt first
Assigns-IsValid p v (exhausted c all past) = record {
  blocks = v.blocks;
  received_size = v.received_size;
  assigned_size = v.assigned_size;
  counted = v.counted;
  buffer_size = v.buffer_size;
  scanned = past;
}

pub assign_next_block-IsValid : (p : PieceProgress) → IsValid p → IsValid (assign_next_block p).0
assign_next_block-IsValid p v = Assigns-IsValid p v (assign_next_block-Assigns p v)

pub mark_received-IsValid : (p : PieceProgress) (i : ℕ) → IsValid p → IsValid (mark_received p i).0
unfolding mark_received
mark_received-IsValid p i v = elim (le_or_lt (length p.blocks_received) i) [
  | inl beyond ↦ let e : leb (length p.blocks_received) i ≡ true = ground arith in rw e v
  | inr within ↦
      let e : leb (length p.blocks_received) i ≡ false = ground arith in
      rw e (elim (Bool-cases (flag p.blocks_received i)) [
        | inl on ↦ rw on v
        | inr off ↦ rw off (received_IsValid p v i (omega (arith, v.received_size)) off)
      ])
]

pub mark_unassigned-IsValid :
    (p : PieceProgress) (i : ℕ) → IsValid p → IsValid (mark_unassigned p i)
unfolding mark_unassigned
mark_unassigned-IsValid p i v = elim (le_or_lt (length p.blocks_assigned) i) [
  | inl beyond ↦ let e : ltb i (length p.blocks_assigned) ≡ false = ground arith in rw e v
  | inr within ↦
      let e : ltb i (length p.blocks_assigned) ≡ true = ground arith in
      rw e (elim (Bool-cases (flag p.blocks_received i)) [
        | inl on ↦ rw on v
        | inr off ↦ rw off (unassigned_IsValid p v i (omega (arith, v.assigned_size)))
      ])
]

-- In a valid progress a block that was received is not received again, one out of range is not
-- received at all, and every other block is.
pub mark_received_iff :
    (p : PieceProgress) (i : ℕ)
    → IsValid p
    → ((mark_received p i).1 ≡ true) ↔ (i < p.num_blocks) × (flag p.blocks_received i ≡ false)
unfolding mark_received
mark_received_iff p i v =
    (λ e. ground (arith, v.received_size), λ (lt, off). ground (arith, v.received_size))

-- In a valid progress the piece is complete exactly when every block of it was received.
pub complete_iff :
    (p : PieceProgress)
    → IsValid p
    → (is_complete p ≡ true) ↔ ((i : ℕ) → i < p.num_blocks → flag p.blocks_received i ≡ true)
unfolding is_complete
complete_iff p v = (
  λ e. count_true-full (flag p.blocks_received) p.num_blocks (ground (arith, v.counted)),
  λ all. ground (arith, v.counted, full-count_true (flag p.blocks_received) p.num_blocks all),
)
