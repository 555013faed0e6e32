-- ===== src/Torrent/Metainfo.antt =====
-- src/torrent/metainfo.rs: the info dictionary of a torrent, `Info` and `parse_info`. A string and a
-- hash are lists of bytes. The path of a file is any type; `parse_info` makes lists of components,
-- none of which is empty or has a separator. Texts of errors are left out.
pub mod Parsed
use moviehouse.Prelude.{
  ℕ, zero, suc, ◌+◌, ◌-◌, ◌*◌, ◌/◌, ◌%◌, ◌^◌, ℤ, pos, negsuc, List, [], ◌∷◌, Bool, true, false, not,
  ◌&&◌, ◌||◌, ltb, leb, ◌==◌, if◌then◌else◌, eq_bytes, length, take, drop, Option, none, some,
  Outcome, ok, err, ◌>>=◌,
}
use Prim.Native.String.{String}
use moviehouse.Bencode.Value.{
  BValue, Items, no_items, item, Entries, as_int, as_bytes, as_str, as_list, as_dict, get_str,
}
use moviehouse.Bencode.Decode.{DecodeError}

pub data MetainfoError : Type 0 where
  decode : DecodeError → MetainfoError
  missing_field : String → MetainfoError
  invalid_field_type : String → MetainfoError
  invalid_pieces_length : ℕ → MetainfoError
  io : MetainfoError
  invalid_piece_length : MetainfoError
  negative_file_length : ℤ → MetainfoError
  path_traversal : String → MetainfoError
  file_too_large : ℕ → MetainfoError

pub record FileEntry (PathBuf : Type 0) : Type 0 where
  pub length : ℕ
  pub path : PathBuf

pub data FileLayout (PathBuf : Type 0) : Type 0 where
  single : ℕ → FileLayout PathBuf
  multi : List (FileEntry PathBuf) → FileLayout PathBuf

pub record Info (PathBuf : Type 0) : Type 0 where
  pub piece_length : ℕ
  pub pieces : List (List ℕ)
  pub name : List ℕ
  pub files : FileLayout PathBuf
  pub total_length : ℕ

-- The paths that `parse_info` makes.
abbrev pub Components : Type 0
Components = List (List ℕ)

abbrev pub Parse : Type 0 → Type 0
Parse A = Outcome MetainfoError A

-- `option.ok_or(e)`
abbrev pub ok_or {ℓ} : {A : Type ℓ} → MetainfoError → Option A → Outcome MetainfoError A
ok_or e none = err e
ok_or e (some a) = ok a

-- `val.get_str(key).and_then(f)`
abbrev pub field {ℓ} : {A : Type ℓ} → (BValue → Option A) → String → BValue → Option A
field f key v = elim (get_str v key) [ none ↦ none | some w ↦ f w ]

unfoldable pub check_piece_length : ℤ → Parse ℕ
check_piece_length (negsuc n) = err invalid_piece_length
check_piece_length (pos n) =
    if n == 0 || ltb (256 * 1_024 * 1_024) n then err invalid_piece_length else ok n

-- `chunks_exact(20)`, for a number of chunks
unfoldable pub chunks : ℕ → List ℕ → List (List ℕ)
chunks zero bytes = []
chunks (suc n) bytes = take 20 bytes ∷ chunks n (drop 20 bytes)

unfoldable pub check_pieces : List ℕ → Parse (List (List ℕ))
unfolding chunks
check_pieces raw =
    if length raw == 0 || not (length raw % 20 == 0)
    then err (invalid_pieces_length (length raw))
    else ok (chunks (length raw / 20) raw)

-- `s.contains(c)`, and `s.contains("..")`
unfoldable pub has_byte : ℕ → List ℕ → Bool
has_byte c [] = false
has_byte c (b ∷ s) = b == c || has_byte c s

unfoldable pub has_dots : List ℕ → Bool
has_dots [] = false
has_dots (a ∷ []) = false
has_dots (a ∷ b ∷ s) = (a == 46 && b == 46) || has_dots (b ∷ s)

unfoldable pub bad_name : List ℕ → Bool
bad_name s = eq_bytes s [] || has_byte 47 s || has_byte 92 s || has_dots s

unfoldable pub bad_component : List ℕ → Bool
bad_component s = eq_bytes s [] || eq_bytes s (46 ∷ 46 ∷ []) || has_byte 47 s || has_byte 92 s

unfoldable pub check_name : List ℕ → Parse (List ℕ)
unfolding bad_name
check_name s = if bad_name s then err (path_traversal "name") else ok s

unfoldable pub check_length : ℤ → Parse ℕ
check_length (negsuc n) = err (negative_file_length (negsuc n))
check_length (pos n) = ok n

-- `filter_map(as_str)`
unfoldable pub strings : Items → Components
strings no_items = []
strings (item v items) =
    let rest = strings items in elim (as_str v) [ none ↦ rest | some s ↦ s ∷ rest ]

unfoldable pub check_components : Components → Parse Components
unfolding bad_component
check_components [] = ok []
check_components (s ∷ components) =
    let rest = check_components components in
    if bad_component s
    then err (path_traversal "files[].path")
    else rest >>= λ checked. ok (s ∷ checked)

unfoldable pub parse_file : BValue → Parse (FileEntry Components)
unfolding check_length check_components strings
parse_file f = do
  length_raw ← ok_or (missing_field "files[].length") (field as_int "length" f)
  len ← check_length length_raw
  path_list ← ok_or (missing_field "files[].path") (field as_list "path" f)
  path ← check_components (strings path_list)
  ok (record { length = len; path = path })

unfoldable pub parse_files : Items → Parse (List (FileEntry Components))
unfolding parse_file
parse_files no_items = ok []
parse_files (item f items) = do
  entry ← parse_file f
  entries ← parse_files items
  ok (entry ∷ entries)

unfoldable pub parse_layout : BValue → Parse (FileLayout Components)
unfolding parse_files check_length
parse_layout v = elim (get_str v "files") [
  | some files ↦ ok_or (invalid_field_type "files") (as_list files) >>= λ files_list.
      parse_files files_list >>= λ entries. ok (multi entries)
  | none ↦ ok_or (missing_field "length") (field as_int "length" v) >>= λ length_raw.
      check_length length_raw >>= λ len. ok (single len)
]

-- The sum wraps.
unfoldable pub sum_lengths : List (FileEntry Components) → ℕ
sum_lengths [] = 0
sum_lengths (f ∷ files) = (f.length + sum_lengths files) % 2 ^ 64

unfoldable pub total_of : FileLayout Components → ℕ
unfolding sum_lengths
total_of (single len) = len
total_of (multi files) = sum_lengths files

abbrev pub div_ceil : ℕ → ℕ → ℕ
div_ceil n d = (n + (d - 1)) / d

unfoldable pub check_total : Info Components → Parse (Info Components)
check_total info =
    if info.total_length == 0
      || not (div_ceil info.total_length info.piece_length == length info.pieces)
    then err invalid_piece_length
    else ok info

unfoldable pub parse_info : BValue → Parse (Info Components)
unfolding check_piece_length check_pieces check_name parse_layout total_of check_total
parse_info v = do
  _ ← ok_or (invalid_field_type "info") (as_dict v)
  piece_length_raw ← ok_or (missing_field "piece length") (field as_int "piece length" v)
  piece_length ← check_piece_length piece_length_raw
  pieces_raw ← ok_or (missing_field "pieces") (field as_bytes "pieces" v)
  pieces ← check_pieces pieces_raw
  name_raw ← ok_or (missing_field "name") (field as_str "name" v)
  name ← check_name name_raw
  files ← parse_layout v
  check_total (record {
    piece_length = piece_length;
    pieces = pieces;
    name = name;
    files = files;
    total_length = total_of files;
  })

module _ {PathBuf : Type 0} where
  -- `Info::piece_length` and `Info::blocks_in_piece`
  unfoldable pub length_of_piece : Info PathBuf → ℕ → ℕ
  length_of_piece info piece_index =
      if piece_index == length info.pieces % 2 ^ 32 - 1
      then (let remainder = info.total_length % info.piece_length % 2 ^ 32 in
          if remainder == 0 then info.piece_length else remainder)
      else info.piece_length

  unfoldable pub blocks_in_piece : Info PathBuf → ℕ → ℕ
  unfolding length_of_piece
  blocks_in_piece info piece_index = div_ceil (length_of_piece info piece_index) 16_384
