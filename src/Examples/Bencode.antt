-- ===== src/Examples/Bencode.antt =====
-- src/bencode/: the theorems on the codec, at concrete values and inputs.
use moviehouse.Prelude.{
  ◌^◌, ◌≡◌, ◌<◌, refl, [], ◌∷◌, ◌++◌, length, ok, arith, pos, negsuc, ascii, is_utf8,
}
use moviehouse.Bencode.Value.{
  BValue, int, bytes, list, dict, no_items, item, no_entries, entry, insert,
}
use moviehouse.Bencode.Decimal.{decimal, decimal_int, parse_i64, magnitude}
use moviehouse.Bencode.Encode.{encode, encode_bytes}
use moviehouse.Bencode.Decode.{
  decode, decode_with_range, decode_value, peek, expect, decode_int, end_of_int, find_end, int_text,
  decode_bytes, scan_length, read_exactly, decode_list, decode_dict, nested, key_bytes, max_depth,
}
use moviehouse.Bencode.RoundTrip.Brackets.{Fits}
use moviehouse.Bencode.Sound.{Yields}
use moviehouse.Bencode.Whole.{
  InRange, decode_with_range-encode, decode_with_range-Yields, decode-encode-decode,
  decode-plus_zero,
}

-- {"a": [1, -2], "b": "xyz"}
abbrev sample : BValue
sample = dict (
    entry (ascii "a") (list (item (int (pos 1)) (item (int (negsuc 1)) no_items)))
      (entry (ascii "b") (bytes (ascii "xyz")) no_entries))

sample-Fits : Fits max_depth sample
unfolding Fits
sample-Fits = ground arith

sample_text : encode sample ≡ ascii "d1:ali1ei-2ee1:b3:xyze"
unfolding encode encode_bytes decimal decimal_int
sample_text = refl

sample_short : length (encode sample) < 2 ^ 63
sample_short = rw sample_text (omega arith)

decode_with_range-encode_example :
    decode_with_range (encode sample ++ ascii "tail")
    ≡ ok (record { value = sample; start = 0; end = length (encode sample) })
decode_with_range-encode_example =
    decode_with_range-encode sample (ascii "tail") sample-Fits (rw sample_text (omega arith))

decode_with_range-Yields_example :
    Yields (InRange (ascii "d1:ai1ee")) (decode_with_range (ascii "d1:ai1ee"))
decode_with_range-Yields_example = decode_with_range-Yields (ascii "d1:ai1ee")

-- Two keys in the wrong order.
abbrev unsorted : BValue
unsorted = dict (entry (ascii "a") (int (pos 2)) (entry (ascii "b") (int (pos 1)) no_entries))

unsorted_decodes : decode (ascii "d1:bi1e1:ai2ee") ≡ ok unsorted
unfolding decode decode_value peek expect decode_int end_of_int find_end int_text decode_bytes
    scan_length read_exactly decode_list decode_dict nested key_bytes parse_i64 magnitude is_utf8
    insert
unsorted_decodes = refl

unsorted_short : length (encode unsorted) < 2 ^ 63
unfolding encode encode_bytes decimal decimal_int
unsorted_short = omega arith

decode-encode-decode_example : decode (encode unsorted) ≡ ok unsorted
decode-encode-decode_example =
    decode-encode-decode (ascii "d1:bi1e1:ai2ee") unsorted unsorted_decodes unsorted_short

decode-plus_zero_example : decode (105 ∷ (43 ∷ 48 ∷ decimal 3) ++ 101 ∷ []) ≡ ok (int (pos 3))
decode-plus_zero_example = decode-plus_zero 3 (omega arith)
