-- ===== src/Bencode/Decode.antt =====
-- src/bencode/decode.rs: the decoder, a recursive descent over a slice and a position. The calls that
-- lead from one value to the next take fuel; `decode` gives enough for every input.
pub mod Tokens
use moviehouse.Prelude.{
  ℕ, zero, suc, ◌+◌, ◌-◌, ◌*◌, ◌^◌, List, [], ◌∷◌, Bool, false, ◌&&◌, not, Option, none, some, leb,
  ltb, ◌==◌, if◌then◌else◌, length, get_elem?, take, drop, eq_bytes, is_utf8, Outcome, ok, err,
  out_of_fuel, ◌>>=◌,
}
use moviehouse.Bencode.Value.{
  BValue, Items, Entries, int, bytes, list, dict, no_items, item, no_entries, insert, size,
}
use moviehouse.Bencode.Decimal.{is_digit, parse_i64}

-- `unsorted_keys` and `duplicate_key` are declared and never returned. `index_out_of_bounds` is the
-- panic of an index or of a slice.
pub data DecodeError : Type 0 where
  unexpected_eof : ℕ → DecodeError
  invalid_byte : ℕ → ℕ → DecodeError
  invalid_integer leading_zero negative_zero invalid_string_length : ℕ → DecodeError
  string_length_overflow unsorted_keys duplicate_key : ℕ → DecodeError
  nesting_too_deep too_many_elements : ℕ → DecodeError
  index_out_of_bounds : DecodeError

abbrev pub max_depth : ℕ
max_depth = 64

abbrev pub max_elements : ℕ
max_elements = 1_000_000

-- `usize::MAX`
abbrev pub usize_max : ℕ
usize_max = 2 ^ 64 - 1

pub record Decoder : Type 0 where
  pub input : List ℕ
  pub pos : ℕ
  pub depth : ℕ

-- A step of the decoder; a decoder that has failed is not used again.
abbrev pub Step : Type 0 → Type 0
Step A = Outcome DecodeError (A × Decoder)

unfoldable pub new : List ℕ → Decoder
new input = record { input = input; pos = 0; depth = 0 }

unfoldable pub is_empty : Decoder → Bool
is_empty d = leb (length d.input) d.pos

unfoldable pub peek : Decoder → Outcome DecodeError ℕ
peek d = elim (get_elem? d.input d.pos) [ none ↦ err (unexpected_eof d.pos) | some b ↦ ok b ]

unfoldable pub advance : Decoder → Step ℕ
advance d = do b ← peek d; ok (b, record d { pos = d.pos + 1 })

unfoldable pub expect : ℕ → Decoder → Step (Unit {0})
unfolding advance
expect expected d = do
  (b, d') ← advance d
  if b == expected then ok (tt, d') else err (invalid_byte b (d'.pos - 1))

-- `iter().position(|&b| b == b'e')`
unfoldable pub find_end : List ℕ → Option ℕ
find_end [] = none
find_end (b ∷ bs) =
    if b == 101 then some 0 else elim (find_end bs) [ none ↦ none | some i ↦ some (suc i) ]

starts_with_zero : List ℕ → Bool
starts_with_zero (b ∷ _) = b == 48
starts_with_zero [] = false

starts_with_minus_zero : List ℕ → Bool
starts_with_minus_zero (a ∷ b ∷ _) = a == 45 && b == 48
starts_with_minus_zero _ = false

-- The text between `i` and `e`.
unfoldable pub int_text : ℕ → List ℕ → Outcome DecodeError BValue
unfolding starts_with_zero starts_with_minus_zero
int_text start num_str =
    if not (is_utf8 num_str)
    then err (invalid_integer start)
    else if ltb 1 (length num_str) && starts_with_zero num_str
    then err (leading_zero start)
    else if eq_bytes num_str (45 ∷ 48 ∷ [])
    then err (negative_zero start)
    else if ltb 1 (length num_str) && starts_with_minus_zero num_str
    then err (leading_zero start)
    else elim (parse_i64 num_str) [ none ↦ err (invalid_integer start) | some n ↦ ok (int n) ]

unfoldable pub end_of_int : Decoder → Outcome DecodeError ℕ
end_of_int d = elim (find_end (drop d.pos d.input)) [
  | none ↦ err (unexpected_eof d.pos)
  | some i ↦ ok (i + d.pos)
]

unfoldable pub decode_int : Decoder → Step BValue
decode_int d = do
  (_, d₁) ← expect 105 d
  end_pos ← end_of_int d₁
  v ← int_text d₁.pos (take (end_pos - d₁.pos) (drop d₁.pos d₁.input))
  (_, d₂) ← expect 101 (record d₁ { pos = end_pos })
  ok (v, d₂)

-- The loop over the digits of a length, on the bytes from `pos` on; it returns the position behind
-- the colon and the length. `checked_mul` and `checked_add` fail together.
unfoldable pub scan_length : ℕ → ℕ → ℕ → List ℕ → Outcome DecodeError (ℕ × ℕ)
scan_length start pos len [] = err (unexpected_eof pos)
scan_length start pos len (b ∷ bs) =
    let len' = len * 10 + (b - 48) in
    let rest = scan_length start (pos + 1) len' bs in
    if b == 58
    then ok (pos + 1, len)
    else if not (is_digit b)
    then err (invalid_string_length start)
    else if leb len' usize_max
    then rest
    else err (string_length_overflow start)

-- The bytes from `pos` on, as many as announced.
unfoldable pub read_exactly : ℕ → Decoder → ℕ → ℕ → Step BValue
read_exactly start d pos len =
    if ltb usize_max (pos + len)
    then err (string_length_overflow start)
    else if ltb (length d.input) (pos + len)
    then err (unexpected_eof pos)
    else ok (bytes (take len (drop pos d.input)), record d { pos = pos + len })

unfoldable pub decode_bytes : Decoder → Step BValue
decode_bytes d = do
  (pos, len) ← scan_length d.pos d.pos 0 (drop d.pos d.input)
  read_exactly d.pos d pos len

-- `decode_list`, over its loop.
unfoldable pub decode_list : (Decoder → Step Items) → Decoder → Step BValue
decode_list items d = do
  (_, d₁) ← expect 108 d
  (vs, d₂) ← items d₁
  (_, d₃) ← expect 101 d₂
  ok (list vs, d₃)

-- `decode_dict`, over its loop.
unfoldable pub decode_dict : (Decoder → Step Entries) → Decoder → Step BValue
decode_dict entries d = do
  (_, d₁) ← expect 100 d
  (map, d₂) ← entries d₁
  (_, d₃) ← expect 101 d₂
  ok (dict map, d₃)

-- The body of `decode_value` for a list or a dictionary: one level deeper and back.
unfoldable pub nested : (Decoder → Step BValue) → Decoder → Step BValue
nested inner d = if leb max_depth d.depth then err (nesting_too_deep d.pos) else do
  (v, d') ← inner (record d { depth = d.depth + 1 })
  ok (v, record d' { depth = d'.depth - 1 })

-- `let BValue::Bytes(key) = … else`
unfoldable pub key_bytes : Decoder → BValue → Outcome DecodeError (List ℕ)
key_bytes d (bytes key) = ok key
key_bytes d _ = elim (get_elem? d.input d.pos) [
  | none ↦ err index_out_of_bounds
  | some b ↦ err (invalid_byte b d.pos)
]

unfoldable mutual
  pub decode_value : ℕ → Decoder → Step BValue
  decode_value zero d = out_of_fuel
  decode_value (suc f) d =
      let items = nested (decode_list (λ e. decode_items f 0 e)) d in
      let entries = nested (decode_dict (λ e. decode_entries f no_entries e)) d in
      peek d >>= λ b.
      if b == 105
      then decode_int d
      else if b == 108
      then items
      else if b == 100
      then entries
      else if is_digit b
      then decode_bytes d
      else err (invalid_byte b d.pos)

  -- `while self.peek()? != b'e'` of `decode_list`, with `n` items read before
  pub decode_items : ℕ → ℕ → Decoder → Step Items
  decode_items zero n d = out_of_fuel
  decode_items (suc f) n d =
      let more = decode_value f d >>= λ (v, d₁).
      decode_items f (n + 1) d₁ >>= λ (vs, d₂). ok (item v vs, d₂) in
      peek d >>= λ b.
      if b == 101
      then ok (no_items, d)
      else if leb max_elements n
      then err (too_many_elements d.pos)
      else more

  -- the loop of `decode_dict`, with the map so far
  pub decode_entries : ℕ → Entries → Decoder → Step Entries
  decode_entries zero map d = out_of_fuel
  decode_entries (suc f) map d =
      let more = decode_value f d >>= λ (k, d₁). key_bytes d k >>= λ key.
      decode_value f d₁ >>= λ (v, d₂). decode_entries f (insert key v map) d₂ in
      peek d >>= λ b.
      if b == 101
      then ok (map, d)
      else if leb max_elements (size map)
      then err (too_many_elements d.pos)
      else more

-- `decoder.decode()`, without the range
unfoldable pub decode_at : Decoder → Step BValue
decode_at d = decode_value (2 * length (drop d.pos d.input) + 1) d

pub record DecodeResult : Type 0 where
  pub value : BValue
  pub start : ℕ
  pub end : ℕ

unfoldable pub decode_with_range : List ℕ → Outcome DecodeError DecodeResult
unfolding decode_at new
decode_with_range input = do
  (v, d) ← decode_at (new input)
  ok (record { value = v; start = (new input).pos; end = d.pos })

unfoldable pub decode : List ℕ → Outcome DecodeError BValue
unfolding decode_with_range
decode input = do r ← decode_with_range input; ok r.value
