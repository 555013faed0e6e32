-- ===== src/Bencode/RoundTrip.antt =====
-- src/bencode/: what `encode` writes, `decode` reads, inside any input and at any depth that is left.
pub mod Brackets
use moviehouse.Prelude.{
  ℕ, zero, suc, ◌+◌, ◌-◌, ◌*◌, ◌^◌, ◌≤◌, ◌<◌, ◌≡◌, ◌≢◌, refl, sym, ap, ◌∙◌, arith, List, [], ◌∷◌,
  ◌++◌, append_assoc, append-nil, Bool, true, false, leb, ltb, ◌==◌, length, length-append, drop,
  IsI64, ℤ, ok, err, ◌>>=◌, if◌then◌else◌,
}
use moviehouse.Bencode.Value.{
  BValue, Items, Entries, int, bytes, list, dict, no_items, item, no_entries, entry, insert, size,
}
use moviehouse.Bencode.Value.Order.{
  AllAbove, IsSorted, AllBelow, join, join_nil, join_assoc, size-join, insert-last, insert-AllBelow,
}
use moviehouse.Bencode.Decimal.{decimal, is_digit, decimal_int}
use moviehouse.Bencode.Decimal.Digits.{decimal-Leading}
use moviehouse.Bencode.Encode.{encode, encode_items, encode_entries, encode_bytes}
use moviehouse.Bencode.Decode.{
  Decoder, Step, new, decode_value, decode_items, decode_entries, decode_list, decode_dict, nested,
  key_bytes, decode_bytes, decode_int, peek, max_depth, max_elements, decode_at, decode,
  decode_with_range,
}
use moviehouse.Bencode.Decode.Tokens.{
  skip, skip-skip, unread, unread-skip, unread-skip_one, peek-unread, decode_int-unread,
  decode_bytes-unread,
}
use Brackets.{
  Fits, FitsItems, FitsEntries, count, Opens, encode-Opens, nested-reads, decode_list-reads,
  decode_dict-reads,
}

module _ (f : ℕ) (d : Decoder) (rest : List ℕ) where
  decode_value-int :
      (n : ℤ)
      → IsI64 n
      → unread d ≡ encode (int n) ++ rest
      → decode_value (suc f) d ≡ ok (int n, skip d (length (encode (int n))))
  unfolding decode_value encode
  decode_value-int n h e =
      let e₁ : unread d ≡ 105 ∷ (decimal_int n ++ 101 ∷ rest) =
        e ∙ ap (λ l. 105 ∷ l) (append_assoc (decimal_int n) (101 ∷ []) rest) in
      let total : 2 + length (decimal_int n) ≡ length (105 ∷ (decimal_int n ++ 101 ∷ [])) =
        omega (arith, length-append (decimal_int n) (101 ∷ [])) in
      rw (peek-unread d 105 (decimal_int n ++ 101 ∷ rest) e₁, decode_int-unread d n rest h e₁)
        (ap (λ q. ok (int n, skip d q)) total)

  decode_value-bytes :
      (b : List ℕ)
      → length d.input < 2 ^ 63
      → unread d ≡ encode_bytes b ++ rest
      → decode_value (suc f) d ≡ ok (bytes b, skip d (length (encode_bytes b)))
  decode_value-bytes b small e =
      let first = decimal-Leading (length b) in
      let e₁ : unread d ≡ first.digit ∷ ((first.later ++ 58 ∷ b) ++ rest) =
        (unfold encode_bytes in e ∙ ap (λ l. (l ++ 58 ∷ b) ++ rest) first.splits) in
      digit_lead first.digit _ e₁ first.is_digit.0 first.is_digit.1
      ∙ decode_bytes-unread d b rest small e
    where
      digit_lead :
          (b : ℕ) (ys : List ℕ)
          → unread d ≡ b ∷ ys
          → 48 ≤ b
          → b ≤ 57
          → decode_value (suc f) d ≡ decode_bytes d
      digit_lead b ys h low high = unfold decode_value in rw (peek-unread d b ys h) (ground arith)

module _ (f : ℕ) (d : Decoder) where
  deeper : Decoder
  deeper = record d { depth = d.depth + 1 }

  decode_value-list :
      (vs : Items) (xs rest : List ℕ)
      → d.depth < max_depth
      → unread d ≡ 108 ∷ (xs ++ 101 ∷ rest)
      → decode_items f 0 (skip deeper 1) ≡ ok (vs, skip (skip deeper 1) (length xs))
      → decode_value (suc f) d ≡ ok (list vs, skip d (length (108 ∷ (xs ++ 101 ∷ []))))
  unfolding decode_value deeper
  decode_value-list vs xs rest shallow e h = rw (peek-unread d 108 (xs ++ 101 ∷ rest) e) (
      nested-reads d (decode_list (λ e'. decode_items f 0 e')) (list vs) _ shallow
        (decode_list-reads deeper (λ e'. decode_items f 0 e') vs xs rest e h))

  decode_value-dict :
      (m : Entries) (xs rest : List ℕ)
      → d.depth < max_depth
      → unread d ≡ 100 ∷ (xs ++ 101 ∷ rest)
      → decode_entries f no_entries (skip deeper 1) ≡ ok (m, skip (skip deeper 1) (length xs))
      → decode_value (suc f) d ≡ ok (dict m, skip d (length (100 ∷ (xs ++ 101 ∷ []))))
  unfolding decode_value deeper
  decode_value-dict m xs rest shallow e h = rw (peek-unread d 100 (xs ++ 101 ∷ rest) e) (
      nested-reads d (decode_dict (λ e'. decode_entries f no_entries e')) (dict m) _ shallow
        (decode_dict-reads deeper (λ e'. decode_entries f no_entries e') m xs rest e h))

  decode_items-item :
      (n : ℕ) (v : BValue) (vs : Items) (d₁ d₂ : Decoder)
      → Opens (unread d)
      → n < max_elements
      → decode_value f d ≡ ok (v, d₁)
      → decode_items f (n + 1) d₁ ≡ ok (vs, d₂)
      → decode_items (suc f) n d ≡ ok (item v vs, d₂)
  unfolding decode_value
  decode_items-item n v vs d₁ d₂ o room hv hvs =
      let fits : leb max_elements n ≡ false = ground arith in
      rw (peek-unread d o.byte o.later o.splits, o.no_end, fits, hv, hvs)

  decode_entries-entry :
      (acc m : Entries) (k : List ℕ) (v : BValue) (d₁ d₂ d₃ : Decoder)
      → Opens (unread d)
      → size acc < max_elements
      → decode_value f d ≡ ok (bytes k, d₁)
      → decode_value f d₁ ≡ ok (v, d₂)
      → decode_entries f (insert k v acc) d₂ ≡ ok (m, d₃)
      → decode_entries (suc f) acc d ≡ ok (m, d₃)
  unfolding decode_value key_bytes
  decode_entries-entry acc m k v d₁ d₂ d₃ o room hk hv hm =
      let fits : leb max_elements (size acc) ≡ false = ground arith in
      rw (peek-unread d o.byte o.later o.splits, o.no_end, fits, hk, hv, hm)

key-Opens : (k rest : List ℕ) → Opens (encode_bytes k ++ rest)
unfolding encode
key-Opens k rest = encode-Opens (bytes k) rest

pub encode_pos : (v : BValue) → 0 < length (encode v)
encode_pos v =
    let o = encode-Opens v [] in
    omega (arith, ap length o.splits, ap length (append-nil (encode v)))

decode_value-key :
    (f : ℕ) (d : Decoder) (rest b : List ℕ)
    → 0 < f
    → length d.input < 2 ^ 63
    → unread d ≡ encode_bytes b ++ rest
    → decode_value f d ≡ ok (bytes b, skip d (length (encode_bytes b)))
decode_value-key zero d rest b h small e = elim h [ ]
decode_value-key (suc f) d rest b h small e = decode_value-bytes f d rest b small e

joined :
    (k : List ℕ) (v : BValue) (acc m : Entries)
    → AllBelow acc (entry k v m)
    → join (insert k v acc) m ≡ join acc (entry k v m)
joined k v acc m h = rw (insert-last k v acc m h) (join_assoc acc (entry k v no_entries) m)

size-insert_last :
    (k : List ℕ) (v : BValue) (acc m : Entries)
    → AllBelow acc (entry k v m)
    → size (insert k v acc) ≡ size acc + 1
size-insert_last k v acc m h = rw (insert-last k v acc m h) (size-join acc (entry k v no_entries))

abbrev ReadsValue : BValue → Type 0
ReadsValue v =
    (f l : ℕ) (d : Decoder) (rest : List ℕ)
    → l + d.depth ≡ max_depth
    → Fits l v
    → length d.input < 2 ^ 63
    → unread d ≡ encode v ++ rest
    → 2 * length (encode v) < f
    → decode_value f d ≡ ok (v, skip d (length (encode v)))

abbrev ReadsItems : Items → Type 0
ReadsItems vs =
    (f l n : ℕ) (d : Decoder) (rest : List ℕ)
    → l + d.depth ≡ max_depth
    → FitsItems l vs
    → length d.input < 2 ^ 63
    → n + count vs ≤ max_elements
    → unread d ≡ encode_items vs ++ 101 ∷ rest
    → 2 * length (encode_items vs) + 1 < f
    → decode_items f n d ≡ ok (vs, skip d (length (encode_items vs)))

abbrev ReadsEntries : Entries → Type 0
ReadsEntries m =
    (f l : ℕ) (acc : Entries) (d : Decoder) (rest : List ℕ)
    → l + d.depth ≡ max_depth
    → FitsEntries l m
    → length d.input < 2 ^ 63
    → IsSorted m
    → AllBelow acc m
    → size acc + size m ≤ max_elements
    → unread d ≡ encode_entries m ++ 101 ∷ rest
    → 2 * length (encode_entries m) + 1 < f
    → decode_entries f acc d ≡ ok (join acc m, skip d (length (encode_entries m)))

skip_zero : (d : Decoder) → d ≡ skip d 0
skip_zero d = let e : d.pos ≡ d.pos + 0 = omega arith in ap (λ q. record d { pos = q }) e

mutual
  unfolding decode_value Fits encode deeper

  pub value-reads : (v : BValue) → ReadsValue v
  value-reads v zero l d rest deep fits small e fuel = absurd (omega arith)
  value-reads (int n) (suc f) l d rest deep fits small e fuel = decode_value-int f d rest n fits e
  value-reads (bytes b) (suc f) l d rest deep fits small e fuel =
      decode_value-bytes f d rest b small e
  value-reads (list vs) (suc f) l d rest deep fits small e fuel =
      let e₁ : unread d ≡ 108 ∷ (encode_items vs ++ 101 ∷ rest) =
        e ∙ ap (λ q. 108 ∷ q) (append_assoc (encode_items vs) (101 ∷ []) rest) in
      decode_value-list f d vs (encode_items vs) rest (omega (arith, fits.0)) e₁ (
        items-read vs f (l - 1) 0 (skip (record d { depth = d.depth + 1 }) 1) rest
          (omega (arith, fits.0)) fits.2 small (omega (arith, fits.1))
          (unread-skip_one d 108 (encode_items vs ++ 101 ∷ rest) e₁)
          (omega (arith, length-append (encode_items vs) (101 ∷ []))))
  value-reads (dict m) (suc f) l d rest deep fits small e fuel =
      let e₁ : unread d ≡ 100 ∷ (encode_entries m ++ 101 ∷ rest) =
        e ∙ ap (λ q. 100 ∷ q) (append_assoc (encode_entries m) (101 ∷ []) rest) in
      decode_value-dict f d m (encode_entries m) rest (omega (arith, fits.0)) e₁ (
        entries-read m f (l - 1) no_entries (skip (record d { depth = d.depth + 1 }) 1) rest
          (omega (arith, fits.0)) fits.3 small fits.2 tt (omega (arith, fits.1))
          (unread-skip_one d 100 (encode_entries m ++ 101 ∷ rest) e₁)
          (omega (arith, length-append (encode_entries m) (101 ∷ []))))

  items-read : (vs : Items) → ReadsItems vs
  items-read vs zero l n d rest deep fits small room e fuel = absurd (omega arith)
  items-read no_items (suc f) l n d rest deep fits small room e fuel =
      rw (peek-unread d 101 rest e) (ap (λ q. ok (no_items, q)) (skip_zero d))
  items-read (item v vs) (suc f) l n d rest deep fits small room e fuel =
      let tail = encode_items vs ++ 101 ∷ rest in
      let e₁ : unread d ≡ encode v ++ tail =
        e ∙ append_assoc (encode v) (encode_items vs) (101 ∷ rest) in
      let sizes = length-append (encode v) (encode_items vs) in
      decode_items-item f d n v vs (skip d (length (encode v)))
        (skip (skip d (length (encode v))) (length (encode_items vs))) (rw e₁ (encode-Opens v tail))
        (omega arith) (value-reads v f l d tail deep fits.0 small e₁ (omega (arith, sizes)))
        (items-read vs f l (n + 1) (skip d (length (encode v))) rest deep fits.1 small (omega arith)
          (unread-skip d (encode v) tail e₁) (omega (arith, sizes, encode_pos v)))
      ∙ ap (λ q. ok (item v vs, q))
          (skip-skip d (length (encode v)) (length (encode_items vs)) ∙ ap (skip d) (sym sizes))

  entries-read : (m : Entries) → ReadsEntries m
  entries-read m zero l acc d rest deep fits small sorted below room e fuel = absurd (omega arith)
  entries-read no_entries (suc f) l acc d rest deep fits small sorted below room e fuel =
      rw (peek-unread d 101 rest e, join_nil acc) (ap (λ q. ok (acc, q)) (skip_zero d))
  entries-read (entry k v m) (suc f) l acc d rest deep fits small sorted below room e fuel =
      let after_value = encode_entries m ++ 101 ∷ rest in
      let after_key = encode v ++ after_value in
      let e₁ : unread d ≡ encode_bytes k ++ after_key = e ∙ simp append_assoc in
      let sizes = length-append (encode v) (encode_entries m) in
      let sizes' = length-append (encode_bytes k) (encode v ++ encode_entries m) in
      let d₁ = skip d (length (encode_bytes k)) in
      let d₂ = skip d₁ (length (encode v)) in
      let e₂ = unread-skip d (encode_bytes k) after_key e₁ in
      decode_entries-entry f d acc (join acc (entry k v m)) k v d₁ d₂
        (skip d₂ (length (encode_entries m))) (rw e₁ (key-Opens k after_key)) (omega arith)
        (decode_value-key f d after_key k (omega (arith, sizes', encode_pos v, sizes)) small e₁)
        (value-reads v f l d₁ after_value deep fits.0 small e₂ (omega (arith, sizes, sizes')))
        (rw (← joined k v acc m below) (
          entries-read m f l (insert k v acc) d₂ rest deep fits.1 small sorted.1
            (insert-AllBelow k v acc m below sorted.0)
            (omega (arith, size-insert_last k v acc m below))
            (unread-skip d₁ (encode v) after_value e₂)
            (omega (arith, sizes, sizes', encode_pos v))))
      ∙ ap (λ q. ok (join acc (entry k v m), q))
          (skip-skip d₁ (length (encode v)) (length (encode_entries m))
            ∙ skip-skip d (length (encode_bytes k)) (length (encode v) + length (encode_entries m))
            ∙ ap (skip d) (omega (arith, sizes, sizes')))
