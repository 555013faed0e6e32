-- ===== src/Engine/Resume/Restart.antt =====
-- src/engine/resume.rs and src/disk/io.rs: a piece that the disk task wrote is found at the next start.
use moviehouse.Prelude.{
  ℕ, ◌+◌, ◌-◌, ◌*◌, ◌%◌, ◌^◌, ◌≤◌, ◌<◌, ◌≡◌, ◌∙◌, arith, List, Bool, true, some, Option, ◌==◌,
  length, min, Bool-cases, inl, inr,
}
use native.Mathlib.Nat as N
use moviehouse.Torrent.Metainfo.{Info, div_ceil}
use moviehouse.Torrent.Metainfo.Parsed.{layout_length}
use moviehouse.Piece.Bitfield.{holds}
use moviehouse.Piece.Picker as Picker
use moviehouse.Piece.Store.{PieceStore, verify}
use moviehouse.Disk.Mapping.{new}
use moviehouse.Disk.Io.{Files, Calls, on_write_piece, on_read_piece}
use moviehouse.Disk.Io as Io
use moviehouse.Disk.Io.Pieces.{DistinctFiles, on_read_piece-on_write_piece}
use moviehouse.Engine.Resume.{piece_len, verify_on_disk}
use moviehouse.Engine.Resume.Adopted.{is_good, verify_on_disk-Adopts}

le-div_ceil : (t d : ℕ) → 0 < d → t ≤ div_ceil t d * d
le-div_ceil t d h = grind (arith, N.div-add-mod' (t + (d - 1)) d, N.mod-lt (t + (d - 1)) h)

div_ceil-le : (t d : ℕ) → 0 < d → div_ceil t d * d ≤ t + (d - 1)
div_ceil-le t d h = grind (arith, N.div-add-mod' (t + (d - 1)) d)

-- A block that is not the last ends before the last one begins.
before_last : (i t d : ℕ) → 0 < d → i + 1 < div_ceil t d → i * d + d < t
before_last i t d h lt =
    let le = N.mul-le-mul_right d lt in let upper = div_ceil-le t d h in grind arith

mod_above : (i t s d : ℕ) → t ≡ i * d + s → s < d → t % d ≡ s
mod_above i t s d e lt = rw e (N.mul-add-mod_self_right i d s ∙ N.mod-eq_of_lt lt)

mod_end : (i t d : ℕ) → t ≡ i * d + d → t % d ≡ 0
mod_end i t d e = let whole : t ≡ (i + 1) * d = grind arith in rw whole (N.mul-mod_left (i + 1) d)

last_ends : (i t d : ℕ) → 0 < d → div_ceil t d ≡ i + 1 → t ≤ i * d + d
last_ends i t d h e = let le : t ≤ (i + 1) * d = rw (← e) (le-div_ceil t d h) in grind arith

last_begins : (i t d : ℕ) → 0 < d → i < div_ceil t d → i * d < t
last_begins i t d h lt =
    let le = N.mul-le-mul_right d lt in let upper = div_ceil-le t d h in grind arith

module _ {PathBuf : Type 0} (info : Info PathBuf) (positive : 0 < info.piece_length)
    (narrow : info.piece_length < 2 ^ 32)
    (covered : div_ceil info.total_length info.piece_length ≡ length info.pieces) (piece : ℕ)
    (inside : piece < length info.pieces) where
  starts_inside : piece * info.piece_length < info.total_length
  starts_inside = last_begins piece info.total_length info.piece_length positive (rw covered inside)

  -- The length that the resumption takes for a piece reaches to the end of the piece.
  piece_len-ends :
      piece * info.piece_length + piece_len info piece
      ≡ min (piece * info.piece_length + info.piece_length) info.total_length
  unfolding piece_len
  piece_len-ends =
      let d = info.piece_length in
      let t = info.total_length in
      let begins = starts_inside in
      elim (Bool-cases (piece + 1 == length info.pieces)) [
        | inl last ↦
            let whole : length info.pieces ≡ piece + 1 = ground arith in
            let below : t ≤ piece * d + d = last_ends piece t d positive (covered ∙ whole) in
            elim (Bool-cases (t == piece * d + d)) [
              | inl full ↦
                  let e : t ≡ piece * d + d = ground arith in
                  rw (last, mod_end piece t d e) (ground arith)
              | inr part ↦
                  let e : t ≡ piece * d + (t - piece * d) = omega arith in
                  let lt : t - piece * d < d = ground arith in
                  let kept : (t - piece * d) % 2 ^ 32 ≡ t - piece * d = omega arith in
                  rw (last, mod_above piece t (t - piece * d) d e lt, kept) (ground arith)
            ]
        | inr inner ↦
            let more : piece * d + d < t =
              before_last piece t d positive (rw covered (ground arith)) in
            rw inner (ground arith)
      ]

  piece_len-narrow : piece_len info piece % 2 ^ 32 ≡ piece_len info piece
  piece_len-narrow = let ends = piece_len-ends in omega arith

module _ (sha1 : List ℕ → List ℕ) (read : ℕ → ℕ → Option (List ℕ)) {PathBuf : Type 0}
    (store : PieceStore) (info : Info PathBuf) where
  is_good-read :
      (piece : ℕ) (raw : List ℕ)
      → read piece (piece_len info piece) ≡ some raw
      → length raw ≡ piece_len info piece
      → length raw % 2 ^ 32 ≡ length raw
      → verify sha1 store piece raw ≡ true
      → is_good sha1 read store info piece ≡ true
  unfolding is_good
  is_good-read piece raw e size narrow right = rw (e, is_good, right) (ground arith)

-- A piece that was written is found at the next start. When the system calls succeed, the bytes have
-- the length of the piece and the hash of the torrent is theirs, the disk task answers that the piece
-- was written, and a new picker owns the piece after `verify_on_disk` on the files as they are then,
-- without the pre-allocation that precedes it.
-- The files of the torrent have different paths and make up its length, the pieces are as many as the
-- length needs, and lengths fit their words.
pub verify_on_disk-on_write_piece :
    (sha1 : List ℕ → List ℕ) {PathBuf : Type 0} (join : PathBuf → PathBuf → PathBuf)
    (of_str : List ℕ → PathBuf) (same : PathBuf → PathBuf → Bool) (calls : Calls PathBuf)
    (info : Info PathBuf) (store : PieceStore) (output_dir : PathBuf) (piece : ℕ) (raw : List ℕ)
    (files : Files PathBuf)
    → ((p : PathBuf) → same p p ≡ true)
    → ((p : PathBuf) → calls.succeeds p ≡ true)
    → DistinctFiles same (new join of_str info output_dir).files
    → layout_length info.files ≡ info.total_length
    → info.total_length + info.piece_length < 2 ^ 64
    → 0 < info.piece_length
    → info.piece_length < 2 ^ 32
    → div_ceil info.total_length info.piece_length ≡ length info.pieces
    → piece < length info.pieces
    → length raw ≡ piece_len info piece
    → verify sha1 store piece raw ≡ true
    → (after : Files PathBuf) × (on_write_piece same calls
          (new join of_str info output_dir)
          piece
          raw
          files
        ≡ (after, Io.done piece))
      × (holds
            (verify_on_disk sha1
              (λ index len.
                on_read_piece same calls (new join of_str info output_dir) index len after)
              store
              info
              (Picker.new (length info.pieces) info.piece_length info.total_length)).0.owned
            piece
          ≡ true)
verify_on_disk-on_write_piece sha1 join of_str same calls info store output_dir piece raw files
      itself works distinct whole small positive narrow covered inside size right =
    let m = new join of_str info output_dir in
    let fits : length raw % 2 ^ 32 ≡ length raw =
      rw size (piece_len-narrow info positive narrow covered piece inside) in
    let (after, is_written, is_read) =
      on_read_piece-on_write_piece join of_str same calls info output_dir piece raw files itself
        works distinct whole small positive
        (starts_inside info positive narrow covered piece inside)
        (rw size (piece_len-ends info positive narrow covered piece inside)) in
    let found : ℕ → ℕ → Option (List ℕ) = λ index len. on_read_piece same calls m index len after in
    let good : is_good sha1 found store info piece ≡ true =
      is_good-read sha1 found store info piece raw (rw (← size) is_read) size fits right in
    let adopts = verify_on_disk-Adopts sha1 found store info in
    (after, is_written, ground (arith, adopts.owned piece))
