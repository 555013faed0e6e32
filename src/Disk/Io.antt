-- ===== src/Disk/Io.antt =====
-- src/disk/io.rs: the reads and writes of pieces. The file system of the standard library is the
-- function from paths to the contents of files. What the code leaves open is in `Calls`: whether the
-- system calls on a span succeed, and what a failure leaves behind.
pub mod Splice
pub mod RoundTrip
pub mod Pieces
use moviehouse.Prelude.{
  ℕ, ◌+◌, ◌-◌, List, [], ◌∷◌, ◌++◌, Bool, true, false, not, Option, none, some, ltb, if◌then◌else◌,
  length, take, drop, replicate,
}
use moviehouse.Disk.Mapping.{FileSpan, FileMapping, piece_spans, files_for_allocation}

abbrev pub Files : Type 0 → Type 0
Files PathBuf = PathBuf → Option (List ℕ)

pub record Calls (PathBuf : Type 0) : Type 0 where
  pub succeeds : PathBuf → Bool
  pub broken : PathBuf → Files PathBuf → Files PathBuf

-- What is left of the files by a write: all is written, a system call failed, or the code panicked.
pub data WriteResult (PathBuf : Type 0) : Type 0 where
  written failed panicked : Files PathBuf → WriteResult PathBuf

pub data ReadResult : Type 0 where
  read : List ℕ → ReadResult
  unreadable : ReadResult
  out_of_bounds : ReadResult

pub data DiskResult : Type 0 where
  done : ℕ → DiskResult
  error : ℕ → DiskResult

-- At least one byte written at an offset; a gap before them is filled with zeros.
unfoldable pub splice : ℕ → List ℕ → List ℕ → List ℕ
splice offset raw old =
    take offset (old ++ replicate (offset - length old) 0) ++ raw ++ drop (offset + length raw) old

module _ {PathBuf : Type 0} (same : PathBuf → PathBuf → Bool) where
  abbrev pub with_file : PathBuf → List ℕ → Files PathBuf → Files PathBuf
  with_file p content files q = if same p q then some content else files q

  -- `create(true)` without `truncate`
  abbrev pub content_of : PathBuf → Files PathBuf → List ℕ
  content_of p files = elim (files p) [ none ↦ [] | some content ↦ content ]

  unfoldable pub write_piece_blocking :
      Calls PathBuf → List (FileSpan PathBuf) → ℕ → List ℕ → Files PathBuf → WriteResult PathBuf
  unfolding splice
  write_piece_blocking calls [] data_offset raw files = written files
  write_piece_blocking calls (s ∷ spans) data_offset raw files =
      let end = data_offset + s.length in
      let bytes = take s.length (drop data_offset raw) in
      let later =
        write_piece_blocking calls spans end raw
          (with_file s.file_path (splice s.offset bytes (content_of s.file_path files)) files) in
      if not (calls.succeeds s.file_path)
      then failed (calls.broken s.file_path files)
      else if ltb (length raw) end
      then panicked (with_file s.file_path (content_of s.file_path files) files)
      else later

  -- The loop, with the bytes of the piece as they are so far.
  unfoldable pub read_spans :
      Calls PathBuf → Files PathBuf → List (FileSpan PathBuf) → ℕ → List ℕ → ReadResult
  read_spans calls files [] data_offset raw = read raw
  read_spans calls files (s ∷ spans) data_offset raw =
      let end = data_offset + s.length in
      elim (files s.file_path) [
        | none ↦ unreadable
        | some content ↦
            let bytes = take s.length (drop s.offset content) in
            let later =
              read_spans calls files spans end (take data_offset raw ++ bytes ++ drop end raw) in
            if not (calls.succeeds s.file_path)
            then unreadable
            else if ltb (length raw) end
            then out_of_bounds
            else if ltb (length content) (s.offset + s.length)
            then unreadable
            else later
      ]

  unfoldable pub read_piece_blocking :
      Calls PathBuf → Files PathBuf → List (FileSpan PathBuf) → ℕ → ReadResult
  unfolding read_spans
  read_piece_blocking calls files spans total_length =
      read_spans calls files spans 0 (replicate total_length 0)

  -- `set_len`, which cuts a file or fills it up with zeros.
  unfoldable pub pre_allocate_file : Calls PathBuf → PathBuf → ℕ → Files PathBuf → Files PathBuf
  pre_allocate_file calls p len files =
      let old = content_of p files in
      if calls.succeeds p
      then with_file p (take len (old ++ replicate (len - length old) 0)) files
      else calls.broken p files

  unfoldable pub pre_allocate : Calls PathBuf → List (PathBuf × ℕ) → Files PathBuf → Files PathBuf
  unfolding pre_allocate_file
  pre_allocate calls [] files = files
  pre_allocate calls ((p, len) ∷ rest) files =
      pre_allocate calls rest (pre_allocate_file calls p len files)

  -- The commands, each with the response that it sends. A task that panicked is an error.
  unfoldable pub on_write_piece :
      Calls PathBuf → FileMapping PathBuf → ℕ → List ℕ → Files PathBuf → Files PathBuf × DiskResult
  unfolding write_piece_blocking piece_spans
  on_write_piece calls m piece_index raw files =
      elim (write_piece_blocking calls (piece_spans m piece_index) 0 raw files) [
        | written files' ↦ (files', done piece_index)
        | failed files' ↦ (files', error piece_index)
        | panicked files' ↦ (files', error piece_index)
      ]

  unfoldable pub on_read_piece :
      Calls PathBuf → FileMapping PathBuf → ℕ → ℕ → Files PathBuf → Option (List ℕ)
  unfolding read_piece_blocking piece_spans
  on_read_piece calls m piece_index len files =
      elim (read_piece_blocking calls files (piece_spans m piece_index) len) [
        | read raw ↦ some raw
        | unreadable ↦ none
        | out_of_bounds ↦ none
      ]

  unfoldable pub on_pre_allocate :
      Calls PathBuf → FileMapping PathBuf → Files PathBuf → Files PathBuf
  unfolding pre_allocate files_for_allocation
  on_pre_allocate calls m files = pre_allocate calls (files_for_allocation m) files
