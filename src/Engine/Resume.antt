-- ===== src/Engine/Resume.antt =====
-- src/engine/resume.rs: what is on the disk already. `read` is what `read_piece` answers, by the index
-- and the length of the piece.
pub mod Adopted
pub mod Restart
use moviehouse.Prelude.{
  ℕ, zero, suc, ◌+◌, ◌%◌, ◌^◌, List, Bool, ◌&&◌, Option, none, some, ◌==◌, if◌then◌else◌, length,
}
use moviehouse.Piece.Picker.{PiecePicker, mark_verified}
use moviehouse.Piece.Store.{PieceStore, verify}
use moviehouse.Torrent.Metainfo.{Info}

module _ {PathBuf : Type 0} where
  unfoldable pub piece_len : Info PathBuf → ℕ → ℕ
  piece_len info piece_index =
      if piece_index + 1 == length info.pieces
      then (let remainder = info.total_length % info.piece_length % 2 ^ 32 in
          if remainder == 0 then info.piece_length else remainder)
      else info.piece_length

module _ (sha1 : List ℕ → List ℕ) (read : ℕ → ℕ → Option (List ℕ)) {PathBuf : Type 0} where
  -- One turn of the loop, with the picker and the number of pieces adopted.
  unfoldable pub adopt : PieceStore → Info PathBuf → ℕ → PiecePicker × ℕ → PiecePicker × ℕ
  unfolding piece_len
  adopt store info index (picker, verified) = elim (read index (piece_len info index)) [
    | none ↦ (picker, verified)
    | some bytes ↦
        if length bytes % 2 ^ 32 == piece_len info index && verify sha1 store index bytes
        then (mark_verified picker index, verified + 1)
        else (picker, verified)
  ]

  -- The loop over the pieces below `n`.
  unfoldable pub adopt_below : PieceStore → Info PathBuf → ℕ → PiecePicker → PiecePicker × ℕ
  unfolding adopt
  adopt_below store info zero picker = (picker, 0)
  adopt_below store info (suc n) picker = adopt store info n (adopt_below store info n picker)

  unfoldable pub verify_on_disk : PieceStore → Info PathBuf → PiecePicker → PiecePicker × ℕ
  unfolding adopt_below
  verify_on_disk store info picker = adopt_below store info (length info.pieces) picker
