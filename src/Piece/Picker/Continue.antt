-- ===== src/Piece/Picker/Continue.antt =====
-- src/piece/picker.rs: the first half of `pick_block`, which looks for a free block in the pieces
-- that are in progress.
use moviehouse.Prelude.{
  ℕ, ◌+◌, ◌*◌, ◌<◌, ◌≡◌, ◌⊎◌, refl, ◌∙◌, arith, List, [], ◌∷◌, Bool, true, false, ◌||◌, Option,
  none, some, ◌==◌, ==_iff, if◌then◌else◌, inl, inr, Bool-cases, Option-cases, set,
}
use mathlib.Core.Path.{subst}
use moviehouse.Prelude.Assoc.{
  find, put, find-put, contains_key, contains_key-put, find-contains_key,
}
use moviehouse.Peer.Message.{block_size}
use moviehouse.Piece.Progress.{PieceProgress, block_length, flag, is_free, assign_next_block}
use moviehouse.Piece.Progress.Valid.{
  IsValid, Assigns, found, exhausted, assign_next_block-Assigns, flag-set,
}
use moviehouse.Piece.Picker.{PiecePicker, BlockRequest, assigned, more_active, continue_piece}

-- Every piece in progress is valid.
abbrev pub AllValid : List (ℕ × PieceProgress) → Type 0
AllValid m = (i : ℕ) (q : PieceProgress) → find i m ≡ some q → IsValid q

-- No block of the piece is free.
abbrev pub NoneFree : PieceProgress → Type 0
NoneFree q = (b : ℕ) → b < q.num_blocks → is_free q b ≡ false

-- A piece with its cursor moved.
abbrev pub at_cursor : PieceProgress → ℕ → PieceProgress
at_cursor q c = record q { assign_cursor = c }

-- The search of a piece for a free block, as equations.
pub search_cases :
    (q : PieceProgress)
    → IsValid q
    → ((b : ℕ) × (b < q.num_blocks)
        × (is_free q b ≡ true)
        × (assign_next_block q ≡ (
          at_cursor (record q { blocks_assigned = set q.blocks_assigned b true }) (b + 1),
          some b,
        )))
      ⊎ ((c : ℕ) × NoneFree q
          × IsValid (at_cursor q c)
          × (assign_next_block q ≡ (at_cursor q c, none)))
search_cases q v = go (assign_next_block-Assigns q v)
  where
    go :
        {r : PieceProgress × Option ℕ}
        → Assigns q r
        → ((b : ℕ) × (b < q.num_blocks)
            × (is_free q b ≡ true)
            × (r ≡ (
              at_cursor (record q { blocks_assigned = set q.blocks_assigned b true }) (b + 1),
              some b,
            )))
          ⊎ ((c : ℕ) × NoneFree q × IsValid (at_cursor q c) × (r ≡ (at_cursor q c, none)))
    go (found b lt free first) = inl (b, lt, free, refl)
    go (exhausted c all past) = inr (
      c,
      all,
      record {
        blocks = v.blocks;
        received_size = v.received_size;
        assigned_size = v.assigned_size;
        counted = v.counted;
        buffer_size = v.buffer_size;
        scanned = past;
      },
      refl,
    )

-- Is the piece among the candidates?
abbrev pub listed : ℕ → List (ℕ × ℕ) → Bool
listed i [] = false
listed i ((j, _) ∷ l) = j == i || listed i l

-- What comes of the candidates: a request for a free block of one of them, which is assigned in the
-- new state, or none, since they have no free block. Then only cursors have moved.
pub data Continues (p : PiecePicker) (l : List (ℕ × ℕ))
    : PiecePicker × Option BlockRequest → Type 0 where
  asks :
      (p' : PiecePicker) (i b : ℕ) (q q' : PieceProgress)
      → listed i l ≡ true
      → find i p.in_progress ≡ some q
      → b < q.num_blocks
      → is_free q b ≡ true
      → find i p'.in_progress ≡ some q'
      → flag q'.blocks_assigned b ≡ true
      → Continues p l (
        p',
        some (record { piece_index = i; offset = b * block_size; length = block_length q b }),
      )
  stuck :
      (m : List (ℕ × PieceProgress))
      → ((i : ℕ) (q : PieceProgress)
          → listed i l ≡ true
          → find i p.in_progress ≡ some q
          → NoneFree q)
      → ((i : ℕ) → contains_key i m ≡ contains_key i p.in_progress)
      → Continues p l (record p { in_progress = m }, none)

pub AllValid-put :
    (m : List (ℕ × PieceProgress)) (i : ℕ) (q : PieceProgress)
    → AllValid m
    → IsValid q
    → AllValid (put i q m)
AllValid-put m i q valid v j q₁ e = elim (Bool-cases (i == j)) [
  | inl same ↦ subst IsValid (cc (e, (rw same at (find-put i j q m)))) v
  | inr other ↦ valid j q₁ (cc (e, (rw other at (find-put i j q m))))
]

-- Past a candidate without a free block, whose cursor has moved.
module _ (p : PiecePicker) (i a : ℕ) (l : List (ℕ × ℕ)) (q : PieceProgress) (c : ℕ)
    (e : find i p.in_progress ≡ some q) (busy : NoneFree q) where
  next_state : PiecePicker
  next_state = record p { in_progress = put i (at_cursor q c) p.in_progress }

  find-next :
      (j : ℕ)
      → find j (put i (at_cursor q c) p.in_progress)
        ≡ (if i == j then some (at_cursor q c) else find j p.in_progress)
  find-next j = find-put i j (at_cursor q c) p.in_progress

  contains_key-next :
      (j : ℕ) → contains_key j (put i (at_cursor q c) p.in_progress) ≡ contains_key j p.in_progress
  contains_key-next j = elim (Bool-cases (i == j)) [
    | inl same ↦
        let at : i ≡ j = (==_iff i j).0 same in
        let here : contains_key i p.in_progress ≡ true = find-contains_key i p.in_progress e in
        let there : contains_key j p.in_progress ≡ true = rw at at here in
        ground (arith, contains_key-put i j (at_cursor q c) p.in_progress)
    | inr other ↦ ground (arith, contains_key-put i j (at_cursor q c) p.in_progress)
  ]

  Continues-next :
      {r : PiecePicker × Option BlockRequest}
      → Continues (record p { in_progress = put i (at_cursor q c) p.in_progress }) l r
      → Continues p ((i, a) ∷ l) r
  Continues-next (asks p' j b q₀ q' lj e₀ lt free e' on) = elim (Bool-cases (i == j)) [
    | inl same ↦
        let moved : at_cursor q c ≡ q₀ = cc (e₀, (rw same at (find-next j))) in
        let busy₀ : NoneFree q₀ = subst NoneFree moved busy in absurd (cc (free, busy₀ b lt))
    | inr other ↦
        asks p' j b q₀ q' (ground arith) (cc (e₀, (rw other at (find-next j)))) lt free e' on
  ]
  Continues-next (stuck m none_free same_keys) =
      stuck m none_free' (λ j. same_keys j ∙ contains_key-next j)
    where
      none_free' :
          (j : ℕ) (q₁ : PieceProgress)
          → listed j ((i, a) ∷ l) ≡ true
          → find j p.in_progress ≡ some q₁
          → NoneFree q₁
      none_free' j q₁ lj e₁ = elim (Bool-cases (i == j)) [
        | inl same ↦
            let at : i ≡ j = (==_iff i j).0 same in
            subst NoneFree {x = q} {y = q₁} (cc (e₁, (rw at at e))) busy
        | inr other ↦ none_free j q₁ (ground arith) (cc (e₁, (rw other at (find-next j))))
      ]

-- Past a candidate that is no longer in progress.
Continues-gone :
    (p : PiecePicker) (i a : ℕ) (l : List (ℕ × ℕ)) {r : PiecePicker × Option BlockRequest}
    → find i p.in_progress ≡ none
    → Continues p l r
    → Continues p ((i, a) ∷ l) r
Continues-gone p i a l gone (asks p' j b q q' lj e lt free e' on) =
    asks p' j b q q' (ground arith) e lt free e' on
Continues-gone p i a l gone (stuck m none_free same_keys) = stuck m none_free' same_keys
  where
    none_free' :
        (j : ℕ) (q : PieceProgress)
        → listed j ((i, a) ∷ l) ≡ true
        → find j p.in_progress ≡ some q
        → NoneFree q
    none_free' j q lj e = elim (Bool-cases (i == j)) [
      | inl same ↦ let at : i ≡ j = (==_iff i j).0 same in absurd (cc (e, (rw at at gone)))
      | inr other ↦ none_free j q (ground arith) e
    ]

-- The candidate is in progress and has a free block.
Continues-free :
    (p : PiecePicker) (i a : ℕ) (l : List (ℕ × ℕ)) (q : PieceProgress) (b : ℕ)
    → IsValid q
    → find i p.in_progress ≡ some q
    → b < q.num_blocks
    → is_free q b ≡ true
    → Continues p ((i, a) ∷ l) (
        let (p', request) =
          assigned p i
            (at_cursor (record q { blocks_assigned = set q.blocks_assigned b true }) (b + 1))
            b in
        (p', some request))
unfolding assigned block_length
Continues-free p i a l q b v e lt free =
    let q' = record q {
      blocks_assigned = set q.blocks_assigned b true;
      assign_cursor = b + 1;
      active_peers = more_active q.active_peers;
    } in
    asks (record p { in_progress = put i q' p.in_progress }) i b q q' (ground arith) e lt free
      (ground (arith, find-put i i q' p.in_progress))
      (ground (arith, flag-set q.blocks_assigned b b true (omega (arith, v.assigned_size))))

-- The continued search for a block, over candidates of a picker with valid pieces.
pub continue_piece-Continues :
    (p : PiecePicker) (l : List (ℕ × ℕ))
    → AllValid p.in_progress
    → Continues p l (continue_piece p l)
unfolding continue_piece
continue_piece-Continues p [] valid = stuck p.in_progress (λ i q lj. cc) (λ i. refl)
continue_piece-Continues p ((i, a) ∷ l) valid = elim (Option-cases (find i p.in_progress)) [
  | inl gone ↦
      rw (gone, continue_piece) (Continues-gone p i a l gone (continue_piece-Continues p l valid))
  | inr (q, e) ↦ elim (search_cases q (valid i q e)) [
    | inl (b, lt, free, at) ↦
        rw (e, at, continue_piece) (rw at (Continues-free p i a l q b (valid i q e) e lt free))
    | inr (c, busy, v, at) ↦
        rw (e, at, continue_piece)
          (rw at (
            Continues-next p i a l q c e busy (
              continue_piece-Continues
                (record p { in_progress = put i (at_cursor q c) p.in_progress }) l
                (AllValid-put p.in_progress i (at_cursor q c) valid v))))
  ]
]
