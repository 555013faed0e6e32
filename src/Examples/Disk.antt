-- ===== src/Examples/Disk.antt =====
-- src/disk/: the theorems on spans and on pieces, at a torrent of two files. A path is the list of its
-- components, or a list of bytes.
use moviehouse.Prelude.{
  ℕ, ◌+◌, ◌*◌, ◌≡◌, refl, List, [], ◌∷◌, ◌++◌, min, arith, true, some, none, replicate, length,
  eq_bytes, eq_bytes_refl, take,
}
use moviehouse.Torrent.Metainfo.{Info, multi}
use moviehouse.Disk.Mapping.{new, piece_spans}
use moviehouse.Disk.Mapping.Tiles.{Tiles, piece_spans-Tiles}
use moviehouse.Disk.Io.{Files, Calls, done, on_write_piece, on_read_piece}
use moviehouse.Disk.Io.Pieces.{on_read_piece-on_write_piece}
use moviehouse.Piece.Bitfield.{holds}
use moviehouse.Piece.Picker as Picker
use moviehouse.Piece.Store.{PieceStore, verify}
use moviehouse.Engine.Resume.{piece_len, verify_on_disk}
use moviehouse.Engine.Resume.Restart.{verify_on_disk-on_write_piece}

abbrev two_files : Info (List (List ℕ))
two_files = record {
  piece_length = 100;
  pieces = [];
  name = 97 ∷ [];
  files = multi (
      record { length = 150; path = (98 ∷ []) ∷ [] }
      ∷ record { length = 80; path = (99 ∷ []) ∷ [] }
      ∷ []);
  total_length = 230;
}

abbrev join : List (List ℕ) → List (List ℕ) → List (List ℕ)
join base path = base ++ path

abbrev of_str : List ℕ → List (List ℕ)
of_str s = s ∷ []

piece_spans-Tiles_example :
    Tiles
      (new join of_str two_files []).files
      (1 * 100)
      (min (1 * 100 + 100) 230)
      (piece_spans (new join of_str two_files []) 1)
piece_spans-Tiles_example =
    piece_spans-Tiles join of_str two_files [] 1 (omega arith) (omega arith) (omega arith)
      (omega arith)

abbrev one_hash : List ℕ
one_hash = replicate 20 1

-- The same files, by paths of bytes; no file is there yet, and all calls succeed.
abbrev flat_files : Info (List ℕ)
flat_files = record {
  piece_length = 100;
  pieces = one_hash ∷ replicate 20 7 ∷ one_hash ∷ [];
  name = 97 ∷ [];
  files =
      multi (record { length = 150; path = 98 ∷ [] } ∷ record { length = 80; path = 99 ∷ [] } ∷ []);
  total_length = 230;
}

abbrev slash : List ℕ → List ℕ → List ℕ
slash base path = base ++ 47 ∷ path

abbrev as_is : List ℕ → List ℕ
as_is s = s

abbrev no_files : Files (List ℕ)
no_files p = none

abbrev good_calls : Calls (List ℕ)
good_calls = record { succeeds = λ p. true; broken = λ p files. files }

abbrev sevens : List ℕ
sevens = replicate 100 7

on_read_piece-on_write_piece_example :
    (after : Files (List ℕ)) × (on_write_piece eq_bytes good_calls
        (new slash as_is flat_files (46 ∷ []))
        1
        sevens
        no_files
      ≡ (after, done 1))
    × (on_read_piece eq_bytes good_calls
          (new slash as_is flat_files (46 ∷ []))
          1
          (length sevens)
          after
        ≡ some sevens)
unfolding new
on_read_piece-on_write_piece_example =
    on_read_piece-on_write_piece slash as_is eq_bytes good_calls flat_files (46 ∷ []) 1 sevens
      no_files eq_bytes_refl (λ p. refl) ((refl, tt), (tt, tt)) refl (omega arith) (omega arith)
      (omega arith) refl

-- The first twenty bytes stand for the hash.
abbrev first_bytes : List ℕ → List ℕ
first_bytes bytes = take 20 bytes

abbrev hashes : PieceStore
hashes = record { piece_hashes = flat_files.pieces }

verify_on_disk-on_write_piece_example :
    (after : Files (List ℕ)) × (on_write_piece eq_bytes good_calls
        (new slash as_is flat_files (46 ∷ []))
        1
        sevens
        no_files
      ≡ (after, done 1))
    × (holds
          (verify_on_disk first_bytes
            (λ index len.
              on_read_piece eq_bytes good_calls
                (new slash as_is flat_files (46 ∷ []))
                index
                len
                after)
            hashes
            flat_files
            (Picker.new 3 100 230)).0.owned
          1
        ≡ true)
unfolding new piece_len verify
verify_on_disk-on_write_piece_example =
    verify_on_disk-on_write_piece first_bytes slash as_is eq_bytes good_calls flat_files hashes
      (46 ∷ []) 1 sevens no_files eq_bytes_refl (λ p. refl) ((refl, tt), (tt, tt)) refl
      (omega arith) (omega arith) (omega arith) refl (omega arith) refl refl
