-- ===== src/Bencode/Tests.antt =====
-- src/bencode/: the unit tests of the codec, on runs of the model.
use moviehouse.Prelude.{
  ℕ, ◌≡◌, refl, List, ◌++◌, replicate, Outcome, ok, err, pos, negsuc, ascii, is_utf8,
}
use moviehouse.Bencode.Value.{BValue, int, list, dict, no_items, item, no_entries, entry, insert}
use moviehouse.Bencode.Decimal.{parse_i64, magnitude}
use moviehouse.Bencode.Decode.{
  DecodeError, decode, decode_value, peek, expect, decode_int, end_of_int, find_end, int_text,
  decode_bytes, scan_length, read_exactly, decode_list, decode_dict, nested, key_bytes,
  nesting_too_deep, string_length_overflow, leading_zero, negative_zero,
}

run : List ℕ → Outcome DecodeError BValue
unfolding decode decode_value peek expect decode_int end_of_int find_end int_text decode_bytes
    scan_length read_exactly decode_list decode_dict nested key_bytes parse_i64 magnitude is_utf8
    insert
run input = decode input

decode_nested :
    run (ascii "d4:listli1ei-2eee")
    ≡ ok (
        dict (
          entry
            (ascii "list")
            (list (item (int (pos 1)) (item (int (negsuc 1)) no_items)))
            no_entries))
unfolding run
decode_nested = refl

-- Keys are sorted as they come in, and the last of two equal ones stays.
decode_unsorted :
    run (ascii "d1:bi1e1:ai2e1:bi3ee")
    ≡ ok (dict (entry (ascii "a") (int (pos 2)) (entry (ascii "b") (int (pos 3)) no_entries)))
unfolding run
decode_unsorted = refl

decode_leading_zero : run (ascii "i03e") ≡ err (leading_zero 1)
unfolding run
decode_leading_zero = refl

decode_negative_zero : run (ascii "i-0e") ≡ err (negative_zero 1)
unfolding run
decode_negative_zero = refl

-- A sign and zeros that the checks on leading zeros do not see.
decode_plus_zero : run (ascii "i+03e") ≡ ok (int (pos 3))
unfolding run
decode_plus_zero = refl

decode_65_levels : run (replicate 65 108 ++ replicate 65 101) ≡ err (nesting_too_deep 64)
unfolding run
decode_65_levels = refl

decode_huge_length : run (ascii "18446744073709551615:") ≡ err (string_length_overflow 0)
unfolding run
decode_huge_length = refl
