-- ===== src/Torrent/Metainfo/Parsed.antt =====
-- src/torrent/metainfo.rs: what `parse_info` accepts.
use moviehouse.Prelude.{
  ℕ, zero, suc, ◌+◌, ◌*◌, ◌/◌, ◌%◌, ◌^◌, ◌≤◌, ◌<◌, ◌≡◌, refl, sym, arith, ℤ, pos, negsuc, List, [],
  ◌∷◌, false, not, ◌||◌, ◌==◌, ==_iff, length, drop, length-take, length-drop, Option-cases,
  Bool-cases, inl, inr, ok, err, out_of_fuel, ◌>>=◌, All,
}
use mathlib.Core.Path.{subst}
use moviehouse.Bencode.Value.{
  BValue, Items, no_items, item, as_int, as_bytes, as_str, as_list, as_dict, get_str,
}
use moviehouse.Torrent.Metainfo.{
  FileEntry, FileLayout, single, multi, Info, Components, Parse, ok_or, field, check_piece_length,
  chunks, check_pieces, bad_name, bad_component, check_name, check_length, strings,
  check_components, parse_file, parse_files, parse_layout, sum_lengths, total_of, div_ceil,
  check_total, parse_info, missing_field, invalid_field_type,
}

-- The length of all files of a layout.
abbrev pub length_of : {PathBuf : Type 0} → List (FileEntry PathBuf) → ℕ
length_of [] = 0
length_of (f ∷ files) = f.length + length_of files

abbrev pub layout_length : {PathBuf : Type 0} → FileLayout PathBuf → ℕ
layout_length (single len) = len
layout_length (multi files) = length_of files

-- No component of the path of a file leads out of the directory of the torrent.
abbrev pub SafeEntry : FileEntry Components → Type 0
SafeEntry f = All (λ s. bad_component s ≡ false) f.path

abbrev pub SafeLayout : FileLayout Components → Type 0
SafeLayout (single len) = Unit
SafeLayout (multi files) = All SafeEntry files

-- The sum of the lengths wraps.
abbrev pub SumOf : FileLayout Components → ℕ → Type 0
SumOf (single len) total = total ≡ len
SumOf (multi files) total = total ≡ length_of files % 2 ^ 64

pub SumOf-layout_length :
    (files : FileLayout Components) (total : ℕ)
    → SumOf files total
    → layout_length files < 2 ^ 64
    → layout_length files ≡ total
SumOf-layout_length (single len) total h small = sym h
SumOf-layout_length (multi files) total h small = omega arith

pub record IsValid (info : Info Components) : Type 0 where
  pub positive : 0 < info.piece_length
  pub bounded : info.piece_length ≤ 2 ^ 28
  pub hashes : All (λ h. length h ≡ 20) info.pieces
  pub nonempty : 0 < info.total_length
  pub covered : div_ceil info.total_length info.piece_length ≡ length info.pieces
  pub total : SumOf info.files info.total_length
  pub safe_name : bad_name info.name ≡ false
  pub safe_paths : SafeLayout info.files

-- What a result has if there is one.
abbrev Ensures : {A : Type 0} → (A → Type 0) → Parse A → Type 0
Ensures {A} P m = (a : A) → m ≡ ok a → P a

Ensures-bind :
    {A B : Type 0} (P : A → Type 0) {Q : B → Type 0} (m : Parse A) (f : A → Parse B)
    → Ensures P m
    → ((a : A) → P a → Ensures Q (f a))
    → Ensures Q (m >>= f)
Ensures-bind P (ok a) f h k = k a (h a refl)
Ensures-bind P (err e) f h k = λ b q. cc
Ensures-bind P out_of_fuel f h k = λ b q. cc

Ensures-after :
    {A B : Type 0} {Q : B → Type 0} (m : Parse A) (f : A → Parse B)
    → ((a : A) → Ensures Q (f a))
    → Ensures Q (m >>= f)
Ensures-after m f k = Ensures-bind (λ _. Unit {0}) m f (λ a q. tt) (λ a _. k a)

Ensures-ok : {A : Type 0} (P : A → Type 0) (a : A) → P a → Ensures P (ok a)
Ensures-ok P a h b q = subst P {x = a} {y = b} (cc q) h

check_piece_length-Ensures :
    (n : ℤ) → Ensures (λ len. (0 < len) × (len ≤ 2 ^ 28)) (check_piece_length n)
unfolding check_piece_length
check_piece_length-Ensures (negsuc n) len q = cc
check_piece_length-Ensures (pos n) len q = ground arith

chunks-size :
    (n : ℕ) (bytes : List ℕ) → n * 20 ≤ length bytes → All (λ h. length h ≡ 20) (chunks n bytes)
unfolding chunks
chunks-size zero bytes h = tt
chunks-size (suc n) bytes h = (
  omega (arith, length-take 20 bytes),
  chunks-size n (drop 20 bytes) (omega (arith, length-drop 20 bytes)),
)

check_pieces-Ensures :
    (raw : List ℕ) → Ensures (λ ps. All (λ h. length h ≡ 20) ps) (check_pieces raw)
unfolding check_pieces
check_pieces-Ensures raw ps q = elim (Bool-cases (length raw == 0 || not (length raw % 20 == 0))) [
  | inl bad ↦ absurd (cc (rw bad at q))
  | inr good ↦
      subst (λ ps. All (λ h. length h ≡ 20) ps) {x = chunks (length raw / 20) raw} {y = ps}
        (cc (rw good at q)) (chunks-size (length raw / 20) raw (omega arith))
]

check_name-Ensures : (s : List ℕ) → Ensures (λ s. bad_name s ≡ false) (check_name s)
unfolding check_name
check_name-Ensures s t q = ground arith

check_components-Ensures :
    (components : Components)
    → Ensures (λ path. All (λ s. bad_component s ≡ false) path) (check_components components)
unfolding check_components
check_components-Ensures [] = Ensures-ok (λ path. All (λ s. bad_component s ≡ false) path) [] tt
check_components-Ensures (s ∷ components) = elim (Bool-cases (bad_component s)) [
  | inl bad ↦ rw bad (λ path q. cc)
  | inr good ↦ rw good (
      Ensures-bind (λ path. All (λ s. bad_component s ≡ false) path) (check_components components) _
        (check_components-Ensures components)
        (λ checked safe.
          Ensures-ok (λ path. All (λ s. bad_component s ≡ false) path) (s ∷ checked) (good, safe)))
]

parse_file-Ensures : (f : BValue) → Ensures SafeEntry (parse_file f)
unfolding parse_file
parse_file-Ensures f =
    Ensures-after (ok_or (missing_field "files[].length") (field as_int "length" f)) _
      (λ length_raw. Ensures-after (check_length length_raw) _ (λ len.
        Ensures-after (ok_or (missing_field "files[].path") (field as_list "path" f)) _
          (λ path_list.
            Ensures-bind (λ path. All (λ s. bad_component s ≡ false) path)
              (check_components (strings path_list)) _
              (check_components-Ensures (strings path_list))
              (λ path safe. Ensures-ok SafeEntry (record { length = len; path = path }) safe))))

parse_files-Ensures : (items : Items) → Ensures (λ files. All SafeEntry files) (parse_files items)
unfolding parse_files
parse_files-Ensures no_items = Ensures-ok (λ files. All SafeEntry files) [] tt
parse_files-Ensures (item f items) =
    let ih = parse_files-Ensures items in
    Ensures-bind SafeEntry (parse_file f) _ (parse_file-Ensures f) (λ entry safe.
      Ensures-bind (λ files. All SafeEntry files) (parse_files items) _ ih
        (λ entries safes.
          Ensures-ok (λ files. All SafeEntry files) (entry ∷ entries) (safe, safes)))

parse_layout-Ensures : (v : BValue) → Ensures SafeLayout (parse_layout v)
unfolding parse_layout
parse_layout-Ensures v = elim (Option-cases (get_str v "files")) [
  | inl e ↦
      rw (e, parse_layout)
        (Ensures-after (ok_or (missing_field "length") (field as_int "length" v)) _ (λ length_raw.
          Ensures-after (check_length length_raw) _ (λ len. Ensures-ok SafeLayout (single len) tt)))
  | inr (files, e) ↦
      rw (e, parse_layout)
        (Ensures-after (ok_or (invalid_field_type "files") (as_list files)) _ (λ files_list.
          Ensures-bind (λ entries. All SafeEntry entries) (parse_files files_list) _
            (parse_files-Ensures files_list)
            (λ entries safe. Ensures-ok SafeLayout (multi entries) safe)))
]

sum_lengths-length_of :
    (files : List (FileEntry Components)) → sum_lengths files ≡ length_of files % 2 ^ 64
unfolding sum_lengths
sum_lengths-length_of [] = refl
sum_lengths-length_of (f ∷ files) = omega (arith, sum_lengths-length_of files)

total_of-SumOf : (files : FileLayout Components) → SumOf files (total_of files)
unfolding total_of
total_of-SumOf (single len) = refl
total_of-SumOf (multi files) = sum_lengths-length_of files

check_total-Ensures :
    (info : Info Components)
    → 0 < info.piece_length
    → info.piece_length ≤ 2 ^ 28
    → All (λ h. length h ≡ 20) info.pieces
    → SumOf info.files info.total_length
    → bad_name info.name ≡ false
    → SafeLayout info.files
    → Ensures IsValid (check_total info)
unfolding check_total
check_total-Ensures info positive bounded hashes total safe_name safe_paths =
    elim (Bool-cases (info.total_length == 0)) [
      | inl empty ↦ rw empty (λ a q. cc)
      | inr some_bytes ↦
          elim (Bool-cases (div_ceil info.total_length info.piece_length == length info.pieces)) [
            | inr other ↦ rw (some_bytes, other) (λ a q. cc)
            | inl same ↦
                rw (some_bytes, same)
                  (Ensures-ok IsValid info (record {
                    positive = positive;
                    bounded = bounded;
                    hashes = hashes;
                    nonempty = ground arith;
                    covered = (==_iff _ _).0 same;
                    total = total;
                    safe_name = safe_name;
                    safe_paths = safe_paths;
                  }))
          ]
    ]

parse_info-Ensures : (v : BValue) → Ensures IsValid (parse_info v)
unfolding parse_info
parse_info-Ensures v = Ensures-after (ok_or (invalid_field_type "info") (as_dict v)) _ (λ _.
    Ensures-after (ok_or (missing_field "piece length") (field as_int "piece length" v)) _ (λ raw.
      Ensures-bind _ (check_piece_length raw) _ (check_piece_length-Ensures raw)
        (λ piece_length in_range.
          Ensures-after (ok_or (missing_field "pieces") (field as_bytes "pieces" v)) _
            (λ pieces_raw.
              Ensures-bind _ (check_pieces pieces_raw) _ (check_pieces-Ensures pieces_raw)
                (λ pieces hashes.
                  Ensures-after (ok_or (missing_field "name") (field as_str "name" v)) _
                    (λ name_raw.
                      Ensures-bind _ (check_name name_raw) _ (check_name-Ensures name_raw)
                        (λ name safe_name.
                          Ensures-bind SafeLayout (parse_layout v) _ (parse_layout-Ensures v)
                            (λ files safe_paths.
                              check_total-Ensures _ in_range.0 in_range.1 hashes
                                (total_of-SumOf files) safe_name safe_paths))))))))

-- What `parse_info` accepts has pieces of at least one byte and at most 256 MiB, a hash of 20 bytes
-- for each piece of a total length that is not zero, no name or component of a path that leads out of
-- its directory, and as total length that of its file, or the sum of those of its files modulo 2^64.
pub parse_info-IsValid :
    (v : BValue) (info : Info Components) → parse_info v ≡ ok info → IsValid info
parse_info-IsValid v info e = parse_info-Ensures v info e
