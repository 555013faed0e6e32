-- ===== src/Disk/Io/Pieces.antt =====
-- src/disk/io.rs: the pieces of a torrent on the disk.
use moviehouse.Prelude.{
  ℕ, ◌+◌, ◌-◌, ◌*◌, ◌^◌, ◌<◌, ◌≡◌, refl, arith, List, [], ◌∷◌, Bool, true, false, some, leb, ltb,
  ◌==◌, All, length, min, Bool-cases, inl, inr,
}
use moviehouse.Torrent.Metainfo.{Info}
use moviehouse.Torrent.Metainfo.Parsed.{layout_length}
use moviehouse.Disk.Mapping.{FileSpan, MappedFile, FileMapping, u64, new, spans_from, piece_spans}
use moviehouse.Disk.Mapping.Tiles.{Tiles, done, span, piece_spans-Tiles}
use moviehouse.Disk.Io.{Files, Calls, DiskResult, on_write_piece, on_read_piece, read}
use moviehouse.Disk.Io
use moviehouse.Disk.Io.RoundTrip.{ends, Elsewhere, Apart, read-write}

module _ {PathBuf : Type 0} where
  ends-Tiles :
      (files : List (MappedFile PathBuf)) (a b off : ℕ) (spans : List (FileSpan PathBuf))
      → Tiles files a b spans
      → ends off spans + a ≡ off + b
  ends-Tiles files a b off spans (done c) = refl
  ends-Tiles files a b off spans (span c d s f rest at path here inside some_bytes tiles) =
      omega (arith, ends-Tiles files (c + s.length) d (off + s.length) rest tiles)

  module _ (same : PathBuf → PathBuf → Bool) where
    -- No two files have one path.
    abbrev pub DistinctFiles : List (MappedFile PathBuf) → Type 0
    DistinctFiles [] = Unit
    DistinctFiles (f ∷ files) = All (λ g. same g.path f.path ≡ false) files × DistinctFiles files

    spans_from-Elsewhere :
        (q : PathBuf) (i current remaining : ℕ) (files : List (MappedFile PathBuf))
        → All (λ g. same g.path q ≡ false) files
        → Elsewhere same q (spans_from i current remaining files)
    unfolding spans_from
    spans_from-Elsewhere q i current remaining [] h = tt
    spans_from-Elsewhere q i current remaining (f ∷ files) h =
        let here = current - f.offset_in_torrent in
        let n = min remaining (f.length - here) in
        elim (Bool-cases (leb (u64 (f.offset_in_torrent + f.length)) current)) [
          | inl behind ↦ rw behind (spans_from-Elsewhere q (i + 1) current remaining files h.1)
          | inr ahead ↦ elim (Bool-cases (ltb current f.offset_in_torrent)) [
            | inl gap ↦ rw (ahead, gap) tt
            | inr inside ↦ elim (Bool-cases (remaining - n == 0)) [
              | inl last ↦ rw (ahead, inside, last) (h.0, tt)
              | inr more ↦
                  rw (ahead, inside, more)
                    (
                      h.0,
                      spans_from-Elsewhere q (i + 1) (u64 (current + n)) (remaining - n) files h.1,
                    )
            ]
          ]
        ]

    spans_from-Apart :
        (i current remaining : ℕ) (files : List (MappedFile PathBuf))
        → DistinctFiles files
        → Apart same (spans_from i current remaining files)
    unfolding spans_from
    spans_from-Apart i current remaining [] h = tt
    spans_from-Apart i current remaining (f ∷ files) h =
        let here = current - f.offset_in_torrent in
        let n = min remaining (f.length - here) in
        elim (Bool-cases (leb (u64 (f.offset_in_torrent + f.length)) current)) [
          | inl behind ↦ rw behind (spans_from-Apart (i + 1) current remaining files h.1)
          | inr ahead ↦ elim (Bool-cases (ltb current f.offset_in_torrent)) [
            | inl gap ↦ rw (ahead, gap) tt
            | inr inside ↦ elim (Bool-cases (remaining - n == 0)) [
              | inl last ↦ rw (ahead, inside, last) (tt, tt)
              | inr more ↦
                  rw (ahead, inside, more)
                    (
                      spans_from-Elsewhere f.path (i + 1) (u64 (current + n)) (remaining - n) files
                          h.0,
                      spans_from-Apart (i + 1) (u64 (current + n)) (remaining - n) files h.1,
                    )
            ]
          ]
        ]

    piece_spans-Apart :
        (m : FileMapping PathBuf) (piece : ℕ)
        → DistinctFiles m.files
        → Apart same (piece_spans m piece)
    unfolding piece_spans
    piece_spans-Apart m piece h =
        let start = piece * m.piece_length in
        elim (Bool-cases (leb (2 ^ 64) start)) [
          | inl far ↦ rw far tt
          | inr near ↦ elim (Bool-cases (leb m.total_length start)) [
            | inl behind ↦ rw (near, behind) tt
            | inr inside ↦ rw (near, inside) (spans_from-Apart 0 start _ m.files h)
          ]
        ]

-- A piece that is written is read back: when the system calls succeed, the task answers that the piece
-- was written, and the next read of the piece answers its bytes. The files of the torrent have
-- different paths and make up its length, the arithmetic fits 64 bits, and the bytes are as many as
-- the piece has, which begins inside the torrent.
pub on_read_piece-on_write_piece :
    {PathBuf : Type 0} (join : PathBuf → PathBuf → PathBuf) (of_str : List ℕ → PathBuf)
    (same : PathBuf → PathBuf → Bool) (calls : Calls PathBuf) (info : Info PathBuf)
    (output_dir : PathBuf) (piece : ℕ) (raw : List ℕ) (files : Files PathBuf)
    → ((p : PathBuf) → same p p ≡ true)
    → ((p : PathBuf) → calls.succeeds p ≡ true)
    → DistinctFiles same (new join of_str info output_dir).files
    → layout_length info.files ≡ info.total_length
    → info.total_length + info.piece_length < 2 ^ 64
    → 0 < info.piece_length
    → piece * info.piece_length < info.total_length
    → piece * info.piece_length + length raw
      ≡ min (piece * info.piece_length + info.piece_length) info.total_length
    → (after : Files PathBuf) × (on_write_piece same calls
          (new join of_str info output_dir)
          piece
          raw
          files
        ≡ (after, Io.done piece))
      × (on_read_piece same calls (new join of_str info output_dir) piece (length raw) after
          ≡ some raw)
unfolding on_write_piece on_read_piece
on_read_piece-on_write_piece join of_str same calls info output_dir piece raw files itself works
      distinct whole small positive inside size =
    let m = new join of_str info output_dir in
    let spans = piece_spans m piece in
    let tiles = piece_spans-Tiles join of_str info output_dir piece whole small positive inside in
    let total : ends 0 spans ≡ length raw = omega (arith, ends-Tiles m.files _ _ 0 spans tiles) in
    let (after, is_written, is_read) =
      read-write same calls works itself raw spans files (piece_spans-Apart same m piece distinct)
        total in
    (after, rw (is_written, on_write_piece) refl, rw (is_read, on_read_piece) refl)
