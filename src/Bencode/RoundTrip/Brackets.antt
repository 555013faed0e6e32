-- ===== src/Bencode/RoundTrip/Brackets.antt =====
-- src/bencode/: what `encode` writes, `decode` reads, inside any input and at any depth that is left.
use moviehouse.Prelude.{
  ℕ, suc, ◌+◌, ◌-◌, ◌≤◌, ◌<◌, ◌≡◌, refl, ap, ◌∙◌, arith, List, [], ◌∷◌, ◌++◌, false, leb, ◌==◌,
  length, length-append, IsI64, ok,
}
use moviehouse.Bencode.Value.{
  BValue, Items, Entries, int, bytes, list, dict, no_items, item, no_entries, entry, size,
}
use moviehouse.Bencode.Value.Order.{IsSorted}
use moviehouse.Bencode.Decimal.Digits.{decimal-Leading}
use moviehouse.Bencode.Encode.{encode, encode_bytes}
use moviehouse.Bencode.Decode.{
  Decoder, Step, decode_list, decode_dict, nested, max_depth, max_elements,
}
use moviehouse.Bencode.Decode.Tokens.{
  skip, skip-skip, unread, unread-skip, unread-skip_one, expect-unread,
}

abbrev pub count : Items → ℕ
count no_items = 0
count (item _ vs) = suc (count vs)

-- A value of the program's types and within the limits of the decoder, with `l` levels left: an
-- `i64`, a sorted map, and no list or map longer than `max_elements`.
unfoldable mutual
  pub Fits : ℕ → BValue → Type 0
  Fits l (int n) = IsI64 n
  Fits l (bytes b) = Unit
  Fits l (list vs) = (0 < l) × (count vs ≤ max_elements) × FitsItems (l - 1) vs
  Fits l (dict m) = (0 < l) × (size m ≤ max_elements) × IsSorted m × FitsEntries (l - 1) m

  pub FitsItems : ℕ → Items → Type 0
  FitsItems l no_items = Unit
  FitsItems l (item v vs) = Fits l v × FitsItems l vs

  pub FitsEntries : ℕ → Entries → Type 0
  FitsEntries l no_entries = Unit
  FitsEntries l (entry k v m) = Fits l v × FitsEntries l m

-- The first byte of a value is none of the bytes that end a list.
pub record Opens (xs : List ℕ) : Type 0 where
  pub byte : ℕ
  pub later : List ℕ
  pub splits : xs ≡ byte ∷ later
  pub no_end : (byte == 101) ≡ false

pub encode-Opens : (v : BValue) (rest : List ℕ) → Opens (encode v ++ rest)
unfolding encode encode_bytes
encode-Opens (int n) rest = record { byte = 105; later = _; splits = refl; no_end = refl }
encode-Opens (list vs) rest = record { byte = 108; later = _; splits = refl; no_end = refl }
encode-Opens (dict m) rest = record { byte = 100; later = _; splits = refl; no_end = refl }
encode-Opens (bytes b) rest =
    let first = decimal-Leading (length b) in
    record {
      byte = first.digit;
      later = (first.later ++ 58 ∷ b) ++ rest;
      splits = ap (λ l. (l ++ 58 ∷ b) ++ rest) first.splits;
      no_end = ground (arith, first.is_digit.1);
    }

module _ (d : Decoder) where
  pub nested-reads :
      (inner : Decoder → Step BValue) (v : BValue) (n : ℕ)
      → d.depth < max_depth
      → inner (record d { depth = d.depth + 1 }) ≡ ok (v, skip (record d { depth = d.depth + 1 }) n)
      → nested inner d ≡ ok (v, skip d n)
  unfolding nested
  nested-reads inner v n shallow h =
      let open_level : leb max_depth d.depth ≡ false = ground arith in
      let back : d.depth + 1 - 1 ≡ d.depth = omega arith in
      rw (open_level, h) (ap (λ q. ok (v, record (skip d n) { depth = q })) back)

  bracketed : (n : ℕ) → skip (skip (skip d 1) n) 1 ≡ skip d (suc n + 1)
  bracketed n = skip-skip (skip d 1) n 1 ∙ skip-skip d 1 (n + 1) ∙ ap (skip d) (omega arith)

  length-bracketed : (b : ℕ) (xs : List ℕ) → length (b ∷ (xs ++ 101 ∷ [])) ≡ suc (length xs) + 1
  length-bracketed b xs = omega (arith, length-append xs (101 ∷ []))

  pub decode_list-reads :
      (items : Decoder → Step Items) (vs : Items) (xs rest : List ℕ)
      → unread d ≡ 108 ∷ (xs ++ 101 ∷ rest)
      → items (skip d 1) ≡ ok (vs, skip (skip d 1) (length xs))
      → decode_list items d ≡ ok (list vs, skip d (length (108 ∷ (xs ++ 101 ∷ []))))
  unfolding decode_list
  decode_list-reads items vs xs rest e h =
      let e₁ = unread-skip_one d 108 (xs ++ 101 ∷ rest) e in
      let e₂ = unread-skip (skip d 1) xs (101 ∷ rest) e₁ in
      rw (length-bracketed 108 xs, expect-unread d 108 (xs ++ 101 ∷ rest) e, h)
        (rw (expect-unread (skip (skip d 1) (length xs)) 101 rest e₂)
          (ap (λ q. ok (list vs, q)) (bracketed (length xs))))

  pub decode_dict-reads :
      (entries : Decoder → Step Entries) (m : Entries) (xs rest : List ℕ)
      → unread d ≡ 100 ∷ (xs ++ 101 ∷ rest)
      → entries (skip d 1) ≡ ok (m, skip (skip d 1) (length xs))
      → decode_dict entries d ≡ ok (dict m, skip d (length (100 ∷ (xs ++ 101 ∷ []))))
  unfolding decode_dict
  decode_dict-reads entries m xs rest e h =
      let e₁ = unread-skip_one d 100 (xs ++ 101 ∷ rest) e in
      let e₂ = unread-skip (skip d 1) xs (101 ∷ rest) e₁ in
      rw (length-bracketed 100 xs, expect-unread d 100 (xs ++ 101 ∷ rest) e, h)
        (rw (expect-unread (skip (skip d 1) (length xs)) 101 rest e₂)
          (ap (λ q. ok (dict m, q)) (bracketed (length xs))))
