-- ===== src/Piece/Picker/Kept.antt =====
-- src/piece/picker.rs: what the operations of the picker keep, whatever they are called with.
use moviehouse.Prelude.{
  ℕ, zero, suc, ◌/◌, ◌<◌, ◌≡◌, refl, ◌∙◌, arith, List, [], ◌∷◌, true, false, some, ◌==◌, ==_iff,
  inl, inr, Bool-cases, Option-cases,
}
use moviehouse.Prelude.Assoc.{
  find, put, remove, find-remove, contains_key, contains_key-put, contains_key-remove,
  find-contains_key,
}
use moviehouse.Peer.Message.{block_size}
use moviehouse.Piece.Bitfield.{Bitfield, holds}
use moviehouse.Piece.Bitfield.Valid
use moviehouse.Piece.Progress.{PieceProgress, assign_next_block, mark_unassigned}
use moviehouse.Piece.Progress
use moviehouse.Piece.Progress.Valid.{IsValid}
use moviehouse.Piece.Progress.Updates.{assign_next_block-IsValid, mark_unassigned-IsValid}
use moviehouse.Piece.Picker.{
  PiecePicker, consider, is_candidate, best_below, pick_piece, check_mode, assigned, continue_piece,
  start_piece, pick_block, sort_by_active, candidates, unassign_block, piece_failed,
  peer_has_bitfield, peer_has_piece, peer_disconnected, actual_piece_length,
}
use moviehouse.Piece.Picker.Continue.{AllValid, AllValid-put}

-- The pieces in progress are valid, in range and not owned, and what is owned is a valid bitfield.
pub record Fit (p : PiecePicker) : Type 0 where
  pub valid : AllValid p.in_progress
  pub owned_valid : Valid.IsValid p.owned
  pub owned_size : p.owned.num_pieces ≡ p.num_pieces
  pub counted : p.verified_count ≡ p.owned.count
  pub missing :
      (i : ℕ) → contains_key i p.in_progress ≡ true → (i < p.num_pieces) × (holds p.owned i ≡ false)

-- What is owned has not changed, and the state stays fit.
pub record Kept (p p' : PiecePicker) : Type 0 where
  pub same_owned : p'.owned ≡ p.owned
  pub same_size : p'.num_pieces ≡ p.num_pieces
  pub same_count : p'.verified_count ≡ p.verified_count
  pub fit : Fit p → Fit p'

pub Kept-refl : (p : PiecePicker) → Kept p p
Kept-refl p = record { same_owned = refl; same_size = refl; same_count = refl; fit = λ h. h }

pub Kept-trans : (p q r : PiecePicker) → Kept p q → Kept q r → Kept p r
Kept-trans p q r h k = record {
  same_owned = k.same_owned ∙ h.same_owned;
  same_size = k.same_size ∙ h.same_size;
  same_count = k.same_count ∙ h.same_count;
  fit = λ f. k.fit (h.fit f);
}

module _ (p : PiecePicker) (i : ℕ) where
  pub Kept-put :
      (q : PieceProgress)
      → (Fit p → IsValid q)
      → (Fit p → (i < p.num_pieces) × (holds p.owned i ≡ false))
      → Kept p (record p { in_progress = put i q p.in_progress })
  Kept-put q h k = record {
    same_owned = refl;
    same_size = refl;
    same_count = refl;
    fit = λ f. record {
      valid = AllValid-put p.in_progress i q f.valid (h f);
      owned_valid = f.owned_valid;
      owned_size = f.owned_size;
      counted = f.counted;
      missing = λ j on. elim (Bool-cases (i == j)) [
        | inl same ↦ let at : i ≡ j = (==_iff i j).0 same in rw (← at) (k f)
        | inr other ↦ f.missing j (ground (arith, contains_key-put i j q p.in_progress))
      ];
    };
  }

  -- An entry of the map is replaced.
  pub Kept-replace :
      (q q' : PieceProgress)
      → find i p.in_progress ≡ some q
      → (IsValid q → IsValid q')
      → Kept p (record p { in_progress = put i q' p.in_progress })
  Kept-replace q q' e h =
      Kept-put q' (λ f. h (f.valid i q e)) (λ f. f.missing i (find-contains_key i p.in_progress e))

  AllValid-remove : AllValid p.in_progress → AllValid (remove i p.in_progress)
  AllValid-remove valid j q e = elim (Bool-cases (i == j)) [
    | inl same ↦ absurd (cc (e, (rw same at (find-remove i j p.in_progress))))
    | inr other ↦ valid j q (cc (e, (rw other at (find-remove i j p.in_progress))))
  ]

  pub Kept-remove : Kept p (record p { in_progress = remove i p.in_progress })
  Kept-remove = record {
    same_owned = refl;
    same_size = refl;
    same_count = refl;
    fit = λ f. record {
      valid = AllValid-remove f.valid;
      owned_valid = f.owned_valid;
      owned_size = f.owned_size;
      counted = f.counted;
      missing = λ j on. f.missing j (ground (arith, contains_key-remove i j p.in_progress));
    };
  }

-- The fields that the properties do not read.
pub Kept-other :
    (p p' : PiecePicker)
    → p'.owned ≡ p.owned
    → p'.num_pieces ≡ p.num_pieces
    → p'.verified_count ≡ p.verified_count
    → p'.in_progress ≡ p.in_progress
    → Kept p p'
Kept-other p p' eo en ec ei = record {
  same_owned = eo;
  same_size = en;
  same_count = ec;
  fit = λ f. record {
    valid = rw ei f.valid;
    owned_valid = rw eo f.owned_valid;
    owned_size = rw (eo, en) f.owned_size;
    counted = rw (eo, ec) f.counted;
    missing = rw (eo, en, ei) f.missing;
  };
}

pub check_mode-Kept : (p : PiecePicker) → Kept p (check_mode p)
unfolding check_mode
check_mode-Kept p =
    Kept-other p (check_mode p) (ground arith) (ground arith) (ground arith) (ground arith)

-- What `pick_piece` picks is a candidate.
best_below-is_candidate :
    (rnd : ℕ → ℕ) (p : PiecePicker) (bf : Bitfield) (n i : ℕ)
    → (best_below rnd p bf n).best_idx ≡ some i
    → (i < n) × (is_candidate p bf i ≡ true)
unfolding best_below consider
best_below-is_candidate rnd p bf zero i e = absurd (cc e)
best_below-is_candidate rnd p bf (suc n) i e = ground (arith, best_below-is_candidate rnd p bf n i)

pub pick_piece-missing :
    (rnd : ℕ → ℕ) (p : PiecePicker) (bf : Bitfield) (i : ℕ)
    → pick_piece rnd p bf ≡ some i
    → (i < p.num_pieces) × (holds p.owned i ≡ false)
unfolding pick_piece is_candidate
pick_piece-missing rnd p bf i e =
    let (lt, cand) = best_below-is_candidate rnd p bf p.num_pieces i e in (lt, ground arith)

more_active-IsValid :
    {q : PieceProgress} {a : ℕ} → IsValid q → IsValid (record q { active_peers = a })
more_active-IsValid v = record {
  blocks = v.blocks;
  received_size = v.received_size;
  assigned_size = v.assigned_size;
  counted = v.counted;
  buffer_size = v.buffer_size;
  scanned = v.scanned;
}

-- A block was found or not: the piece is put back, with or without one more active peer.
continue_piece-Kept : (p : PiecePicker) (l : List (ℕ × ℕ)) → Kept p (continue_piece p l).0
unfolding continue_piece assigned
continue_piece-Kept p [] = Kept-refl p
continue_piece-Kept p ((i, a) ∷ l) = elim (Option-cases (find i p.in_progress)) [
  | inl gone ↦ rw (gone, continue_piece) (continue_piece-Kept p l)
  | inr (q, e) ↦ elim (Option-cases (assign_next_block q).1) [
    | inl nothing ↦
        let q' = (assign_next_block q).0 in
        let p' : PiecePicker = record p { in_progress = put i q' p.in_progress } in
        rw (e, nothing, continue_piece)
          (Kept-trans p p' _ (Kept-replace p i q q' e (assign_next_block-IsValid q))
            (continue_piece-Kept p' l))
    | inr (b, at) ↦
        rw (e, at, continue_piece)
          (Kept-replace p i q _ e (λ v. more_active-IsValid (assign_next_block-IsValid q v)))
  ]
]

start_piece-Kept : (rnd : ℕ → ℕ) (p : PiecePicker) (bf : Bitfield) → Kept p (start_piece rnd p bf).0
unfolding start_piece assigned
start_piece-Kept rnd p bf = elim (Option-cases (pick_piece rnd p bf)) [
  | inl nothing ↦ rw (nothing, start_piece) (Kept-refl p)
  | inr (i, picked) ↦
      let q = Progress.new (actual_piece_length p i) in
      let v = assign_next_block-IsValid q (Progress.Valid.new-IsValid (actual_piece_length p i)) in
      let missing = pick_piece-missing rnd p bf i picked in
      elim (Option-cases (assign_next_block q).1) [
        | inl nothing ↦ rw (picked, nothing, start_piece) (Kept-put p i _ (λ f. v) (λ f. missing))
        | inr (b, at) ↦
            rw (picked, at, start_piece)
              (Kept-trans p _ _ (Kept-put p i _ (λ f. more_active-IsValid v) (λ f. missing))
                (check_mode-Kept _))
      ]
]

-- Whatever is asked for, what is owned stays as it is.
pub pick_block-Kept :
    (rnd : ℕ → ℕ) (order : List ℕ) (p : PiecePicker) (bf : Bitfield)
    → Kept p (pick_block rnd order p bf).0
unfolding pick_block
pick_block-Kept rnd order p bf =
    let l = sort_by_active (candidates p bf order) in
    let p' = (continue_piece p l).0 in
    elim (Option-cases (continue_piece p l).1) [
      | inl nothing ↦
          rw (nothing, pick_block)
            (Kept-trans p p' _ (continue_piece-Kept p l) (start_piece-Kept rnd p' bf))
      | inr (b, at) ↦ rw (at, pick_block) (continue_piece-Kept p l)
    ]

pub unassign_block-Kept : (p : PiecePicker) (i offset : ℕ) → Kept p (unassign_block p i offset)
unfolding unassign_block
unassign_block-Kept p i offset = elim (Option-cases (find i p.in_progress)) [
  | inl gone ↦ rw (gone, unassign_block) (Kept-refl p)
  | inr (q, e) ↦
      rw (e, unassign_block)
        (Kept-replace p i q _ e (mark_unassigned-IsValid q (offset / block_size)))
]

pub piece_failed-Kept : (p : PiecePicker) (i : ℕ) → Kept p (piece_failed p i)
unfolding piece_failed
piece_failed-Kept p i = Kept-remove p i

pub peer_has_bitfield-Kept : (p : PiecePicker) (bf : Bitfield) → Kept p (peer_has_bitfield p bf)
unfolding peer_has_bitfield
peer_has_bitfield-Kept p bf = Kept-other p _ refl refl refl refl

pub peer_disconnected-Kept : (p : PiecePicker) (bf : Bitfield) → Kept p (peer_disconnected p bf)
unfolding peer_disconnected
peer_disconnected-Kept p bf = Kept-other p _ refl refl refl refl

pub peer_has_piece-Kept : (p : PiecePicker) (i : ℕ) → Kept p (peer_has_piece p i)
unfolding peer_has_piece
peer_has_piece-Kept p i = Kept-other p _ (ground arith) (ground arith) (ground arith) (ground arith)
