-- ===== src/Disk/Mapping.antt =====
-- src/disk/mapping.rs: which bytes of which files a piece covers. Additions of `u64` wrap.
pub mod Tiles
use moviehouse.Prelude.{
  ℕ, ◌+◌, ◌-◌, ◌*◌, ◌%◌, ◌^◌, List, [], ◌∷◌, leb, ltb, ◌==◌, if◌then◌else◌, min, map,
}
use moviehouse.Torrent.Metainfo.{FileEntry, FileLayout, single, multi, Info}

pub record FileSpan (PathBuf : Type 0) : Type 0 where
  pub file_index : ℕ
  pub file_path : PathBuf
  pub offset : ℕ
  pub length : ℕ

pub record MappedFile (PathBuf : Type 0) : Type 0 where
  pub path : PathBuf
  pub offset_in_torrent : ℕ
  pub length : ℕ

pub record FileMapping (PathBuf : Type 0) : Type 0 where
  pub files : List (MappedFile PathBuf)
  pub piece_length : ℕ
  pub total_length : ℕ

abbrev pub u64 : ℕ → ℕ
u64 n = n % 2 ^ 64

-- `join` joins two paths and `of_str` is the path of a string.
module _ {PathBuf : Type 0} (join : PathBuf → PathBuf → PathBuf) (of_str : List ℕ → PathBuf) where
  -- The closure over `files`, with the offset that it changes.
  unfoldable pub map_files : PathBuf → ℕ → List (FileEntry PathBuf) → List (MappedFile PathBuf)
  map_files base_dir offset [] = []
  map_files base_dir offset (f ∷ files) =
      record { path = join base_dir f.path; offset_in_torrent = offset; length = f.length }
      ∷ map_files base_dir (u64 (offset + f.length)) files

  unfoldable pub mapped : PathBuf → FileLayout PathBuf → List (MappedFile PathBuf)
  unfolding map_files
  mapped base_dir (single len) =
      record { path = base_dir; offset_in_torrent = 0; length = len } ∷ []
  mapped base_dir (multi files) = map_files base_dir 0 files

  unfoldable pub new : Info PathBuf → PathBuf → FileMapping PathBuf
  unfolding mapped
  new info output_dir = record {
    files = mapped (join output_dir (of_str info.name)) info.files;
    piece_length = info.piece_length;
    total_length = info.total_length;
  }

module _ {PathBuf : Type 0} where
  -- The loop over the files, from the one of index `i` on.
  unfoldable pub spans_from : ℕ → ℕ → ℕ → List (MappedFile PathBuf) → List (FileSpan PathBuf)
  spans_from i current remaining [] = []
  spans_from i current remaining (file ∷ files) =
      let file_end = u64 (file.offset_in_torrent + file.length) in
      let offset_in_file = current - file.offset_in_torrent in
      let span_length = min remaining (file.length - offset_in_file) in
      let skipped = spans_from (i + 1) current remaining files in
      let rest = spans_from (i + 1) (u64 (current + span_length)) (remaining - span_length) files in
      let span : FileSpan PathBuf = record {
        file_index = i;
        file_path = file.path;
        offset = offset_in_file;
        length = span_length;
      } in
      if leb file_end current
      then skipped
      else if ltb current file.offset_in_torrent
      then []
      else if remaining - span_length == 0
      then span ∷ []
      else span ∷ rest

  unfoldable pub piece_spans : FileMapping PathBuf → ℕ → List (FileSpan PathBuf)
  piece_spans m piece_index =
      let piece_start = piece_index * m.piece_length in
      let piece_end = min (u64 (piece_start + m.piece_length)) m.total_length in
      let remaining = u64 (2 ^ 64 + piece_end - piece_start) in
      if leb (2 ^ 64) piece_start
      then []
      else if leb m.total_length piece_start
      then []
      else spans_from 0 piece_start remaining m.files

  unfoldable pub file_paths : FileMapping PathBuf → List PathBuf
  file_paths m = map (λ f. f.path) m.files

  unfoldable pub files_for_allocation : FileMapping PathBuf → List (PathBuf × ℕ)
  files_for_allocation m = map (λ f. (f.path, f.length)) m.files
