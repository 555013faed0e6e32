-- ===== src/Disk/Mapping/Tiles.antt =====
-- src/disk/mapping.rs: `piece_spans` against the layout of the torrent.
use moviehouse.Prelude.{
  ℕ, suc, ◌+◌, ◌-◌, ◌*◌, ◌^◌, ◌≤◌, ◌<◌, ◌≡◌, refl, arith, List, [], ◌∷◌, leb, ltb, ◌==◌, min, some,
  get_elem?, le_or_lt, inl, inr, true, false, ok,
}
use moviehouse.Torrent.Metainfo.{FileEntry, FileLayout, single, multi, Info, Components, parse_info}
use moviehouse.Bencode.Value.{BValue}
use moviehouse.Torrent.Metainfo.Parsed.{
  length_of, layout_length, SumOf-layout_length, parse_info-IsValid,
}
use moviehouse.Disk.Mapping.{
  FileSpan, MappedFile, u64, map_files, mapped, new, spans_from, piece_spans,
}

module _ {PathBuf : Type 0} where
  -- The files stand one behind the other, from `off` to `total`.
  abbrev pub Contiguous : ℕ → List (MappedFile PathBuf) → ℕ → Type 0
  Contiguous off [] total = off ≡ total
  Contiguous off (f ∷ files) total =
      (f.offset_in_torrent ≡ off) × Contiguous (off + f.length) files total

  -- The spans are the bytes of the torrent from `start` to `end`, in order. Each lies in its file.
  pub data Tiles (files : List (MappedFile PathBuf))
      : ℕ → ℕ → List (FileSpan PathBuf) → Type 0 where
    done : (a : ℕ) → Tiles files a a []
    span :
        (a b : ℕ) (s : FileSpan PathBuf) (f : MappedFile PathBuf) (spans : List (FileSpan PathBuf))
        → get_elem? files s.file_index ≡ some f
        → s.file_path ≡ f.path
        → f.offset_in_torrent + s.offset ≡ a
        → s.offset + s.length ≤ f.length
        → 0 < s.length
        → Tiles files (a + s.length) b spans
        → Tiles files a b (s ∷ spans)

  Contiguous-le :
      (off : ℕ) (files : List (MappedFile PathBuf)) (total : ℕ)
      → Contiguous off files total
      → off ≤ total
  Contiguous-le off [] total h = omega arith
  Contiguous-le off (f ∷ files) total h =
      omega (arith, Contiguous-le (off + f.length) files total h.1)

  -- The loop, at a suffix of the files.
  spans_from-Tiles :
      (all : List (MappedFile PathBuf)) (i current remaining off total : ℕ)
      (files : List (MappedFile PathBuf))
      → ((k : ℕ) → get_elem? all (i + k) ≡ get_elem? files k)
      → Contiguous off files total
      → off ≤ current
      → 0 < remaining
      → current + remaining ≤ total
      → total < 2 ^ 64
      → Tiles all current (current + remaining) (spans_from i current remaining files)
  unfolding spans_from
  spans_from-Tiles all i current remaining off total [] suffix c before more fits small =
      absurd (omega arith)
  spans_from-Tiles all i current remaining off total (f ∷ files) suffix c before more fits small =
      let later = Contiguous-le (off + f.length) files total c.1 in
      let at_end : u64 (f.offset_in_torrent + f.length) ≡ off + f.length = omega (arith, c.0) in
      let suffix' : (k : ℕ) → get_elem? all (i + 1 + k) ≡ get_elem? files k =
        λ k. (let e : i + 1 + k ≡ i + suc k = omega arith in rw e (suffix (suc k))) in
      elim (le_or_lt (off + f.length) current) [
        | inl behind ↦
            let e : leb (off + f.length) current ≡ true = ground arith in
            rw (at_end, e)
              (spans_from-Tiles all (i + 1) current remaining (off + f.length) total files suffix'
                c.1 behind more fits small)
        | inr here ↦
            let e₁ : leb (off + f.length) current ≡ false = ground arith in
            let e₂ : ltb current f.offset_in_torrent ≡ false = ground (arith, c.0) in
            let zero_end : i + 0 ≡ i = omega arith in
            let this : get_elem? all i ≡ some f = rw zero_end at (suffix 0) in
            let there : f.offset_in_torrent + (current - f.offset_in_torrent) ≡ current =
              omega (arith, c.0) in
            let available = f.length - (current - f.offset_in_torrent) in
            elim (le_or_lt remaining available) [
              | inl enough ↦
                  let w : min remaining available ≡ remaining = omega arith in
                  let last : (remaining - remaining == 0) ≡ true = ground arith in
                  rw (at_end, e₁, e₂, w, last)
                    (span current (current + remaining) _ f [] this refl there (omega (arith, c.0))
                      more (done (current + remaining)))
              | inr short ↦
                  let w : min remaining available ≡ available = omega arith in
                  let further : (remaining - available == 0) ≡ false = ground arith in
                  let no_wrap : u64 (current + available) ≡ current + available =
                    omega (arith, c.0) in
                  let sum : current + available + (remaining - available) ≡ current + remaining =
                    omega arith in
                  let rest =
                    spans_from-Tiles all (i + 1) (current + available) (remaining - available)
                      (off + f.length) total files suffix' c.1 (omega (arith, c.0)) (omega arith)
                      (omega (arith, c.0)) small in
                  rw (at_end, e₁, e₂, w, further, no_wrap)
                    (span current (current + remaining) _ f _ this refl there (omega (arith, c.0))
                      (omega (arith, c.0)) (rw sum at rest))
            ]
      ]

module _ {PathBuf : Type 0} (join : PathBuf → PathBuf → PathBuf) (of_str : List ℕ → PathBuf) where
  map_files-Contiguous :
      (base_dir : PathBuf) (off : ℕ) (files : List (FileEntry PathBuf))
      → off + length_of files < 2 ^ 64
      → Contiguous off (map_files join of_str base_dir off files) (off + length_of files)
  unfolding map_files
  map_files-Contiguous base_dir off [] small = omega arith
  map_files-Contiguous base_dir off (f ∷ files) small =
      let no_wrap : u64 (off + f.length) ≡ off + f.length = omega arith in
      let sum : off + f.length + length_of files ≡ off + (f.length + length_of files) =
        omega arith in
      (
        refl,
        rw (no_wrap, ← sum) (map_files-Contiguous base_dir (off + f.length) files (omega arith)),
      )

  mapped-Contiguous :
      (base_dir : PathBuf) (layout : FileLayout PathBuf)
      → layout_length layout < 2 ^ 64
      → Contiguous 0 (mapped join of_str base_dir layout) (layout_length layout)
  unfolding mapped
  mapped-Contiguous base_dir (single len) small = (refl, omega arith)
  mapped-Contiguous base_dir (multi files) small =
      let zero_sum : 0 + length_of files ≡ length_of files = omega arith in
      rw zero_sum at (map_files-Contiguous base_dir 0 files (omega arith))

  -- The spans of a piece that begins inside the torrent are just the bytes of the torrent from its
  -- first one to the first of the next piece, or to the end of the torrent, in order and each in its
  -- file. The files make up the length of the torrent, and the arithmetic fits 64 bits.
  pub piece_spans-Tiles :
      (info : Info PathBuf) (output_dir : PathBuf) (piece : ℕ)
      → layout_length info.files ≡ info.total_length
      → info.total_length + info.piece_length < 2 ^ 64
      → 0 < info.piece_length
      → piece * info.piece_length < info.total_length
      → Tiles
          (new join of_str info output_dir).files
          (piece * info.piece_length)
          (min (piece * info.piece_length + info.piece_length) info.total_length)
          (piece_spans (new join of_str info output_dir) piece)
  unfolding new piece_spans
  piece_spans-Tiles info output_dir piece whole small positive inside =
      let start = piece * info.piece_length in
      let end = min (start + info.piece_length) info.total_length in
      let e₁ : leb (2 ^ 64) start ≡ false = ground arith in
      let e₂ : leb info.total_length start ≡ false = ground arith in
      let no_wrap : u64 (start + info.piece_length) ≡ start + info.piece_length = omega arith in
      let remaining : u64 (2 ^ 64 + end - start) ≡ end - start = omega arith in
      let sum : start + (end - start) ≡ end = omega arith in
      let files = mapped join of_str (join output_dir (of_str info.name)) info.files in
      let tiles =
        spans_from-Tiles files 0 start (end - start) 0 (layout_length info.files) files
          (λ k. (let e : 0 + k ≡ k = omega arith in rw e))
          (mapped-Contiguous (join output_dir (of_str info.name)) info.files (omega (arith, whole)))
          (omega arith) (omega arith) (omega (arith, whole)) (omega (arith, whole)) in
      rw (e₁, e₂, no_wrap, remaining) (rw sum at tiles)

-- The same for a torrent whose info dictionary was accepted, if its files and one more piece of the
-- greatest size fit 64 bits: the lengths need not be checked again.
pub parse_info-Tiles :
    (join : Components → Components → Components) (of_str : List ℕ → Components) (v : BValue)
    (info : Info Components) (output_dir : Components) (piece : ℕ)
    → parse_info v ≡ ok info
    → layout_length info.files + 2 ^ 28 < 2 ^ 64
    → piece * info.piece_length < info.total_length
    → Tiles
        (new join of_str info output_dir).files
        (piece * info.piece_length)
        (min (piece * info.piece_length + info.piece_length) info.total_length)
        (piece_spans (new join of_str info output_dir) piece)
parse_info-Tiles join of_str v info output_dir piece e small inside =
    let valid = parse_info-IsValid v info e in
    let whole = SumOf-layout_length info.files info.total_length valid.total (omega arith) in
    piece_spans-Tiles join of_str info output_dir piece whole (omega (arith, whole, valid.bounded))
      valid.positive inside
