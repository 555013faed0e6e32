-- ===== src/Bencode/Encode.antt =====
-- src/bencode/encode.rs: a value as bytes. `encode_to` is modelled by what it appends to its buffer.
use moviehouse.Prelude.{ℕ, List, [], ◌∷◌, ◌++◌, length}
use moviehouse.Bencode.Decimal.{decimal, decimal_int}
use moviehouse.Bencode.Value.{
  BValue, Items, Entries, int, bytes, list, dict, no_items, item, no_entries, entry,
}

-- A length, a colon and the bytes.
unfoldable pub encode_bytes : List ℕ → List ℕ
encode_bytes b = decimal (length b) ++ 58 ∷ b

unfoldable mutual
  pub encode : BValue → List ℕ
  encode (int n) = 105 ∷ (decimal_int n ++ 101 ∷ [])
  encode (bytes b) = encode_bytes b
  encode (list items) = 108 ∷ (encode_items items ++ 101 ∷ [])
  encode (dict map) = 100 ∷ (encode_entries map ++ 101 ∷ [])

  pub encode_items : Items → List ℕ
  encode_items no_items = []
  encode_items (item v items) = encode v ++ encode_items items

  pub encode_entries : Entries → List ℕ
  encode_entries no_entries = []
  encode_entries (entry key v map) = encode_bytes key ++ (encode v ++ encode_entries map)
