-- ===== src/Piece/Picker/Verified.antt =====
-- src/piece/picker.rs: `block_received` and `mark_verified`, which complete pieces.
use moviehouse.Prelude.{
  ℕ, ◌+◌, ◌<◌, ◌≡◌, refl, arith, List, true, false, leb, ◌/◌, ◌==◌, if◌then◌else◌, length, inl, inr,
  Bool-cases, Option-cases,
}
use moviehouse.Prelude.Assoc.{find, contains_key, contains_key-remove, find-contains_key}
use moviehouse.Peer.Message.{block_size}
use moviehouse.Piece.Bitfield
use moviehouse.Piece.Bitfield.{holds, set_bit, with_piece}
use moviehouse.Piece.Bitfield.Updates.{
  new-IsValid, with_piece-IsValid, num_pieces-with_piece, holds-with_piece,
}
use moviehouse.Piece.Progress.{PieceProgress, mark_received}
use moviehouse.Piece.Progress
use moviehouse.Piece.Progress.Valid.{IsValid}
use moviehouse.Piece.Progress.Updates.{mark_received-IsValid}
use moviehouse.Piece.Picker.{
  PiecePicker, new, store_block, block_received, check_mode, mark_verified, piece_complete,
}
use moviehouse.Piece.Picker.Assemble.{length-overwrite}
use moviehouse.Piece.Picker.Kept.{Fit, Kept, Kept-refl, Kept-replace, Kept-remove, check_mode-Kept}

pub new-Fit : (n piece_length total : ℕ) → Fit (new n piece_length total)
unfolding new find contains_key Bitfield.new
new-Fit n piece_length total = record {
  valid = λ i q e. absurd (cc e);
  owned_valid = new-IsValid n;
  owned_size = refl;
  counted = refl;
  missing = λ i on. absurd (cc on);
}

pub store_block-IsValid :
    (q : PieceProgress) (offset : ℕ) (bytes : List ℕ)
    → IsValid q
    → IsValid (store_block q offset bytes)
unfolding store_block
store_block-IsValid q offset bytes v =
    elim (Bool-cases (leb (offset + length bytes) (length q.buffer))) [
      | inr beyond ↦ rw beyond v
      | inl within ↦ rw within (record {
        blocks = v.blocks;
        received_size = v.received_size;
        assigned_size = v.assigned_size;
        counted = v.counted;
        buffer_size = rw length-overwrite v.buffer_size;
        scanned = v.scanned;
      })
    ]

module _ (p : PiecePicker) (i offset : ℕ) (bytes : List ℕ) where
  -- A block was stored or the piece is taken out.
  pub block_received-Kept : Kept p (block_received p i offset bytes).0
  unfolding block_received
  block_received-Kept = elim (Option-cases (find i p.in_progress)) [
    | inl gone ↦ rw (gone, block_received) (Kept-refl p)
    | inr (q, e) ↦
        let q' = (mark_received q (offset / block_size)).0 in
        elim (Bool-cases (mark_received q (offset / block_size)).1) [
          | inr old ↦ rw (e, old, block_received) (Kept-refl p)
          | inl fresh ↦ elim (Bool-cases (Progress.is_complete (store_block q' offset bytes))) [
            | inl whole ↦ rw (e, fresh, whole, block_received) (Kept-remove p i)
            | inr more ↦
                rw (e, fresh, more, block_received)
                  (Kept-replace p i q _ e (λ v.
                    store_block-IsValid q' offset bytes
                      (mark_received-IsValid q (offset / block_size) v)))
          ]
        ]
  ]

  -- A piece that is complete was in progress.
  pub block_received-missing :
      {whole : List ℕ}
      → Fit p
      → (block_received p i offset bytes).1 ≡ piece_complete whole
      → (i < p.num_pieces) × (holds p.owned i ≡ false)
  unfolding block_received
  block_received-missing f h = elim (Option-cases (find i p.in_progress)) [
    | inl gone ↦ absurd (cc (rw (gone, block_received) at h))
    | inr (q, e) ↦ f.missing i (find-contains_key i p.in_progress e)
  ]

-- A piece that was missing is owned afterwards.
module _ (p : PiecePicker) (i : ℕ) (f : Fit p) (lt : i < p.num_pieces)
    (off : holds p.owned i ≡ false) where
  count-with_piece : (with_piece p.owned i).count ≡ p.owned.count + 1
  unfolding with_piece set_bit
  count-with_piece = ground (arith, f.owned_size)

  pub mark_verified-Fit : Fit (mark_verified p i)
  unfolding mark_verified
  mark_verified-Fit = (check_mode-Kept _).fit (record {
    valid = ((Kept-remove p i).fit f).valid;
    owned_valid = with_piece-IsValid p.owned f.owned_valid i;
    owned_size = rw (num_pieces-with_piece p.owned f.owned_valid i) f.owned_size;
    counted = ground (arith, f.counted, count-with_piece);
    missing = λ j on. ground (
      arith,
      contains_key-remove i j p.in_progress,
      holds-with_piece p.owned f.owned_valid i j,
      f.missing j,
    );
  })

  pub holds-mark_verified :
      (j : ℕ) → holds (mark_verified p i).owned j ≡ (if i == j then true else holds p.owned j)
  unfolding mark_verified check_mode
  holds-mark_verified j = ground (arith, holds-with_piece p.owned f.owned_valid i j, f.owned_size)

pub verified_count-mark_verified :
    (p : PiecePicker) (i : ℕ) → (mark_verified p i).verified_count ≡ p.verified_count + 1
unfolding mark_verified check_mode
verified_count-mark_verified p i = ground arith

pub num_pieces-mark_verified :
    (p : PiecePicker) (i : ℕ) → (mark_verified p i).num_pieces ≡ p.num_pieces
unfolding mark_verified check_mode
num_pieces-mark_verified p i = ground arith
