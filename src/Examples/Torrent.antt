-- ===== src/Examples/Torrent.antt =====
-- src/torrent/metainfo.rs and src/disk/mapping.rs: the theorems on info dictionaries, at one of a
-- single file.
use moviehouse.Prelude.{
  ℕ, ◌+◌, ◌*◌, ◌≡◌, refl, List, [], ◌∷◌, ◌++◌, min, arith, ok, pos, ascii, replicate, is_utf8,
}
use moviehouse.Bencode.Value.{
  BValue, int, bytes, dict, no_entries, entry, lookup, get, get_str, as_int, as_bytes, as_str,
  as_dict,
}
use moviehouse.Torrent.Metainfo.{
  Info, single, Components, check_piece_length, chunks, check_pieces, has_byte, has_dots, bad_name,
  check_name, check_length, parse_layout, total_of, check_total, parse_info,
}
use moviehouse.Torrent.Metainfo.Parsed.{IsValid, parse_info-IsValid}
use moviehouse.Disk.Mapping.{new, piece_spans}
use moviehouse.Disk.Mapping.Tiles.{Tiles, parse_info-Tiles}

abbrev one_file : BValue
one_file = dict (
    entry (ascii "length") (int (pos 20_000)) (
      entry (ascii "name") (bytes (ascii "film")) (
        entry (ascii "piece length") (int (pos 16_384))
          (entry (ascii "pieces") (bytes (replicate 40 7)) no_entries))))

abbrev one_file_info : Info Components
one_file_info = record {
  piece_length = 16_384;
  pieces = replicate 20 7 ∷ replicate 20 7 ∷ [];
  name = ascii "film";
  files = single 20_000;
  total_length = 20_000;
}

one_file_parses : parse_info one_file ≡ ok one_file_info
unfolding parse_info check_piece_length chunks check_pieces has_byte has_dots bad_name check_name
    check_length parse_layout total_of check_total get_str get lookup as_int as_bytes as_str as_dict
    is_utf8
one_file_parses = refl

parse_info-IsValid_example : IsValid one_file_info
parse_info-IsValid_example = parse_info-IsValid one_file one_file_info one_file_parses

abbrev join : Components → Components → Components
join base path = base ++ path

abbrev of_str : List ℕ → Components
of_str s = s ∷ []

parse_info-Tiles_example :
    Tiles
      (new join of_str one_file_info []).files
      (1 * 16_384)
      (min (1 * 16_384 + 16_384) 20_000)
      (piece_spans (new join of_str one_file_info []) 1)
parse_info-Tiles_example =
    parse_info-Tiles join of_str one_file one_file_info [] 1 one_file_parses (omega arith)
      (omega arith)
