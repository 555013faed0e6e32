-- ===== src/Piece/Progress/Indexing.antt =====
-- src/piece/picker.rs: the operations of `PieceProgress` with the panics of their indices. `none` is a
-- panic; the operations of `Piece.Progress` read and write nothing there.
use moviehouse.Prelude.{
  ℕ, zero, suc, ◌+◌, ◌-◌, ◌<◌, ◌≡◌, refl, arith, List, [], ◌∷◌, Bool, true, false, not, Option,
  none, some, leb, ltb, if◌then◌else◌, length, set, get_elem?, min, le_or_lt, inl, inr, Bool-cases,
}
use moviehouse.Piece.Progress.{
  PieceProgress, flag, is_free, assign_loop, assign_next_block, mark_received, mark_unassigned,
}
use moviehouse.Piece.Progress.Valid.{IsValid}

-- `flags[i] = b`
unfoldable pub set_at : List Bool → ℕ → Bool → Option (List Bool)
set_at flags i b = if ltb i (length flags) then some (set flags i b) else none

unfoldable pub mark_received_indexed : PieceProgress → ℕ → Option (PieceProgress × Bool)
unfolding set_at
mark_received_indexed p idx =
    if leb (length p.blocks_received) idx
    then some (p, false)
    else elim (get_elem? p.blocks_received idx) [
      | none ↦ none
      | some true ↦ some (p, false)
      | some false ↦ elim (set_at p.blocks_received idx true) [
        | none ↦ none
        | some received ↦ elim (set_at p.blocks_assigned idx true) [
          | none ↦ none
          | some assigned ↦ some (
            record p {
              blocks_received = received;
              blocks_assigned = assigned;
              received_count = p.received_count + 1;
              assign_cursor = 0;
            },
            true,
          )
        ]
      ]
    ]

unfoldable pub mark_unassigned_indexed : PieceProgress → ℕ → Option PieceProgress
unfolding set_at
mark_unassigned_indexed p idx =
    if ltb idx (length p.blocks_assigned)
    then elim (get_elem? p.blocks_received idx) [
      | none ↦ none
      | some true ↦ some p
      | some false ↦ elim (set_at p.blocks_assigned idx false) [
        | none ↦ none
        | some assigned ↦
            some (record p { blocks_assigned = assigned; assign_cursor = min p.assign_cursor idx })
      ]
    ]
    else some p

-- The test of one block, `&&` being lazy.
unfoldable pub is_free_at : PieceProgress → ℕ → Option Bool
is_free_at p idx = elim (get_elem? p.blocks_received idx) [
  | none ↦ none
  | some true ↦ some false
  | some false ↦ elim (get_elem? p.blocks_assigned idx) [
    | none ↦ none
    | some taken ↦ some (not taken)
  ]
]

unfoldable pub assign_loop_indexed : ℕ → PieceProgress → Option (PieceProgress × Option ℕ)
unfolding is_free_at set_at
assign_loop_indexed zero p = some (p, none)
assign_loop_indexed (suc fuel) p =
    let idx = p.assign_cursor in
    let stepped = record p { assign_cursor = p.assign_cursor + 1 } in
    let rest = assign_loop_indexed fuel stepped in
    if ltb p.assign_cursor p.num_blocks
    then elim (is_free_at p idx) [
      | none ↦ none
      | some false ↦ rest
      | some true ↦ elim (set_at p.blocks_assigned idx true) [
        | none ↦ none
        | some assigned ↦ some (record stepped { blocks_assigned = assigned }, some idx)
      ]
    ]
    else some (p, none)

unfoldable pub assign_next_block_indexed : PieceProgress → Option (PieceProgress × Option ℕ)
unfolding assign_loop_indexed
assign_next_block_indexed p = assign_loop_indexed (p.num_blocks - p.assign_cursor) p

get_elem?-flag :
    (flags : List Bool) (i : ℕ) → i < length flags → get_elem? flags i ≡ some (flag flags i)
get_elem?-flag [] i h = absurd (omega arith)
get_elem?-flag (x ∷ xs) zero h = refl
get_elem?-flag (x ∷ xs) (suc i) h = get_elem?-flag xs i (omega arith)

set_at-inside :
    (flags : List Bool) (i : ℕ) (b : Bool)
    → i < length flags
    → set_at flags i b ≡ some (set flags i b)
unfolding set_at
set_at-inside flags i b h = ground arith

pub mark_received-Indexes :
    (p : PieceProgress) (i : ℕ) → IsValid p → mark_received_indexed p i ≡ some (mark_received p i)
unfolding mark_received_indexed mark_received
mark_received-Indexes p i v = elim (le_or_lt (length p.blocks_received) i) [
  | inl beyond ↦ let e : leb (length p.blocks_received) i ≡ true = ground arith in rw e refl
  | inr within ↦
      let e : leb (length p.blocks_received) i ≡ false = ground arith in
      let r = set_at-inside p.blocks_received i true within in
      let a =
        set_at-inside p.blocks_assigned i true (omega (arith, v.received_size, v.assigned_size)) in
      let g = get_elem?-flag p.blocks_received i within in
      elim (Bool-cases (flag p.blocks_received i)) [
        | inl on ↦ rw (e, g, on, mark_received_indexed) refl
        | inr off ↦ rw (e, g, off, r, a, mark_received_indexed) refl
      ]
]

pub mark_unassigned-Indexes :
    (p : PieceProgress) (i : ℕ)
    → IsValid p
    → mark_unassigned_indexed p i ≡ some (mark_unassigned p i)
unfolding mark_unassigned_indexed mark_unassigned
mark_unassigned-Indexes p i v = elim (le_or_lt (length p.blocks_assigned) i) [
  | inl beyond ↦ let e : ltb i (length p.blocks_assigned) ≡ false = ground arith in rw e refl
  | inr within ↦
      let e : ltb i (length p.blocks_assigned) ≡ true = ground arith in
      let a = set_at-inside p.blocks_assigned i false within in
      let g =
        get_elem?-flag p.blocks_received i (omega (arith, v.received_size, v.assigned_size)) in
      elim (Bool-cases (flag p.blocks_received i)) [
        | inl on ↦ rw (e, g, on, mark_unassigned_indexed) refl
        | inr off ↦ rw (e, g, off, a, mark_unassigned_indexed) refl
      ]
]

is_free_at-inside :
    (p : PieceProgress) (i : ℕ)
    → i < length p.blocks_received
    → i < length p.blocks_assigned
    → is_free_at p i ≡ some (is_free p i)
unfolding is_free_at
is_free_at-inside p i h k =
    let g = get_elem?-flag p.blocks_received i h in
    let a = get_elem?-flag p.blocks_assigned i k in
    elim (Bool-cases (flag p.blocks_received i)) [
      | inl on ↦ rw (g, on, is_free_at) refl
      | inr off ↦ rw (g, off, a, is_free_at) refl
    ]

assign_loop-Indexes :
    (fuel : ℕ) (p : PieceProgress)
    → length p.blocks_received ≡ p.num_blocks
    → length p.blocks_assigned ≡ p.num_blocks
    → assign_loop_indexed fuel p ≡ some (assign_loop fuel p)
unfolding assign_loop_indexed assign_loop
assign_loop-Indexes zero p h k = refl
assign_loop-Indexes (suc fuel) p h k =
    let c = p.assign_cursor in
    let rest = assign_loop-Indexes fuel (record p { assign_cursor = c + 1 }) h k in
    elim (Bool-cases (ltb c p.num_blocks)) [
      | inr end ↦ rw end refl
      | inl more ↦
          let lt : c < p.num_blocks = ground arith in
          let f = is_free_at-inside p c (omega arith) (omega arith) in
          let a = set_at-inside p.blocks_assigned c true (omega arith) in
          elim (Bool-cases (is_free p c)) [
            | inl free ↦ rw (more, f, free, a, assign_loop_indexed) refl
            | inr taken ↦ rw (more, f, taken, assign_loop_indexed) rest
          ]
    ]

pub assign_next_block-Indexes :
    (p : PieceProgress) → IsValid p → assign_next_block_indexed p ≡ some (assign_next_block p)
unfolding assign_next_block_indexed assign_next_block
assign_next_block-Indexes p v =
    assign_loop-Indexes (p.num_blocks - p.assign_cursor) p v.received_size v.assigned_size
