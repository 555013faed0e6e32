-- ===== src/Bencode/Decode/Tokens.antt =====
-- src/bencode/decode.rs: each routine below `decode_value` reads what `encode` writes in its place.
use moviehouse.Prelude.{
  ℕ, suc, ◌+◌, ◌-◌, ◌*◌, ◌^◌, ◌≤◌, ◌<◌, ◌≡◌, ◌≢◌, refl, ap, ◌∙◌, arith, List, [], ◌∷◌, ◌++◌,
  append_assoc, true, false, some, ℤ, pos, negsuc, ltb, length, length-append, length-drop,
  get_elem?-drop, drop-drop, drop-append, take-append, drop, All, All-map, le_or_lt, inl, inr,
  is_utf8, is_utf8_ascii, AllAscii, IsI64, ok,
}
use moviehouse.Bencode.Value.{BValue, int, bytes}
use moviehouse.Bencode.Decimal.{decimal, decimal_int, magnitude, parse_i64}
use moviehouse.Bencode.Decimal.Digits.{
  IsDigit, Leading, decimal-digits, decimal-Leading, magnitude-decimal, parse_i64-decimal_int,
  parse_i64-plus_zero,
}
use moviehouse.Bencode.Encode.{encode_bytes}
use moviehouse.Bencode.Decode.{
  Decoder, peek, expect, find_end, int_text, end_of_int, decode_int, scan_length, read_exactly,
  decode_bytes, usize_max,
}

-- The decoder further on.
abbrev pub skip : Decoder → ℕ → Decoder
skip d n = record d { pos = d.pos + n }

pub skip-skip : (d : Decoder) (n m : ℕ) → skip (skip d n) m ≡ skip d (n + m)
skip-skip d n m =
    let e : d.pos + n + m ≡ d.pos + (n + m) = omega arith in λ i. record d { pos = e i }

-- What the decoder has not read.
abbrev pub unread : Decoder → List ℕ
unread d = drop d.pos d.input

pub unread-skip :
    (d : Decoder) (xs ys : List ℕ) → unread d ≡ xs ++ ys → unread (skip d (length xs)) ≡ ys
unread-skip d xs ys h = rw (← drop-drop (length xs) d.pos d.input) (rw h (drop-append xs ys))

pub unread-skip_one :
    (d : Decoder) (b : ℕ) (ys : List ℕ) → unread d ≡ b ∷ ys → unread (skip d 1) ≡ ys
unread-skip_one d b ys h = unread-skip d (b ∷ []) ys h

pub peek-unread : (d : Decoder) (b : ℕ) (ys : List ℕ) → unread d ≡ b ∷ ys → peek d ≡ ok b
unfolding peek
peek-unread d b ys h = rw (get_elem?-drop d.pos d.input h, peek)

pub expect-unread :
    (d : Decoder) (b : ℕ) (ys : List ℕ) → unread d ≡ b ∷ ys → expect b d ≡ ok (tt, skip d 1)
unfolding expect
expect-unread d b ys h = rw (peek-unread d b ys h) (ground arith)

-- An integer.

find_end-append :
    (text rest : List ℕ)
    → All (λ b. b ≢ 101) text
    → find_end (text ++ 101 ∷ rest) ≡ some (length text)
unfolding find_end
find_end-append [] rest h = refl
find_end-append (b ∷ text) rest h = ground (arith, find_end-append text rest h.1)

int_text-plain :
    (start b : ℕ) (later : List ℕ) (n : ℤ)
    → 48 ≤ b
    → (0 < length later → 49 ≤ b)
    → is_utf8 (b ∷ later) ≡ true
    → parse_i64 (b ∷ later) ≡ some n
    → int_text start (b ∷ later) ≡ ok (int n)
unfolding int_text
int_text-plain start b [] n digit first text parses = ground arith
int_text-plain start b (c ∷ later) n digit first text parses = ground (arith, first (omega arith))

int_text-minus :
    (start b : ℕ) (later : List ℕ) (n : ℤ)
    → 49 ≤ b
    → is_utf8 (45 ∷ b ∷ later) ≡ true
    → parse_i64 (45 ∷ b ∷ later) ≡ some n
    → int_text start (45 ∷ b ∷ later) ≡ ok (int n)
unfolding int_text
int_text-minus start b later n digit text parses = ground arith

digits→ascii : (text : List ℕ) → All IsDigit text → AllAscii text
digits→ascii [] h = tt
digits→ascii (b ∷ text) h = (omega arith, digits→ascii text h.1)

first_nonzero : (n : ℕ) (text : List ℕ) (l : Leading n text) → 0 < length l.later → 49 ≤ l.digit
first_nonzero n text l h = elim (le_or_lt 10 n) [
  | inl large ↦ l.nonzero (omega arith)
  | inr small ↦ absurd (omega (arith, ap length (l.alone small)))
]

decimal_ascii : (n : ℕ) → AllAscii (decimal n)
decimal_ascii n = digits→ascii (decimal n) (decimal-digits n)

int_text-decimal_int : (start : ℕ) (n : ℤ) → IsI64 n → int_text start (decimal_int n) ≡ ok (int n)
unfolding decimal_int
int_text-decimal_int start (pos n) h =
    let first = decimal-Leading n in
    let text = is_utf8_ascii (decimal n) (decimal_ascii n) in
    let parses = parse_i64-decimal_int (pos n) h in
    rw first.splits (
      int_text-plain start first.digit first.later (pos n) first.is_digit.0
        (first_nonzero n (decimal n) first) (rw first.splits at text) (rw first.splits at parses))
int_text-decimal_int start (negsuc n) h =
    let first = decimal-Leading (suc n) in
    let text = is_utf8_ascii (45 ∷ decimal (suc n)) (omega arith, decimal_ascii (suc n)) in
    let parses = parse_i64-decimal_int (negsuc n) h in
    rw first.splits (
      int_text-minus start first.digit first.later (negsuc n) (first.nonzero (omega arith))
        (rw first.splits at text) (rw first.splits at parses))

decimal_int_no_e : (n : ℤ) → All (λ b. b ≢ 101) (decimal_int n)
unfolding decimal_int
decimal_int_no_e (pos n) = All-map (decimal n) (λ b h. omega arith) (decimal-digits n)
decimal_int_no_e (negsuc n) =
    (omega arith, All-map (decimal (suc n)) (λ b h. omega arith) (decimal-digits (suc n)))

end_of_int-unread :
    (d : Decoder) (text rest : List ℕ)
    → unread d ≡ text ++ 101 ∷ rest
    → All (λ b. b ≢ 101) text
    → end_of_int d ≡ ok (length text + d.pos)
unfolding end_of_int
end_of_int-unread d text rest h no_e = rw (h, find_end-append text rest no_e, end_of_int)

-- The text between the brackets decides alone.
pub decode_int-text :
    (d : Decoder) (v : BValue) (text rest : List ℕ)
    → All (λ b. b ≢ 101) text
    → int_text (d.pos + 1) text ≡ ok v
    → unread d ≡ 105 ∷ (text ++ 101 ∷ rest)
    → decode_int d ≡ ok (v, skip d (2 + length text))
unfolding decode_int
decode_int-text d v text rest no_e h e =
    let e₁ : unread (skip d 1) ≡ text ++ 101 ∷ rest =
      unread-skip_one d 105 (text ++ 101 ∷ rest) e in
    let stop : length text + (d.pos + 1) - (d.pos + 1) ≡ length text = omega arith in
    let behind = skip (skip d 1) (length text) in
    let same : length text + (d.pos + 1) ≡ d.pos + 1 + length text = omega arith in
    let e₂ : unread behind ≡ 101 ∷ rest = unread-skip (skip d 1) text (101 ∷ rest) e₁ in
    let total : d.pos + 1 + length text + 1 ≡ d.pos + (2 + length text) = omega arith in
    rw (expect-unread d 105 (text ++ 101 ∷ rest) e) (
      rw (end_of_int-unread (skip d 1) text rest e₁ no_e) (
        rw (stop, e₁, take-append text (101 ∷ rest), h)
          (rw (same, expect-unread behind 101 rest e₂)
            (ap (λ q. ok (v, record d { pos = q })) total))))

pub decode_int-unread :
    (d : Decoder) (n : ℤ) (rest : List ℕ)
    → IsI64 n
    → unread d ≡ 105 ∷ (decimal_int n ++ 101 ∷ rest)
    → decode_int d ≡ ok (int n, skip d (2 + length (decimal_int n)))
decode_int-unread d n rest h e =
    decode_int-text d (int n) (decimal_int n) rest (decimal_int_no_e n)
      (int_text-decimal_int (d.pos + 1) n h) e

-- `+0` in front of the digits is no leading zero to the checks.
pub int_text-plus_zero :
    (start n : ℕ) → n < 2 ^ 63 → int_text start (43 ∷ 48 ∷ decimal n) ≡ ok (int (pos n))
int_text-plus_zero start n h =
    int_text_sign start (decimal n)
      (is_utf8_ascii (43 ∷ 48 ∷ decimal n) (omega arith, (omega arith, decimal_ascii n)))
      (parse_i64-plus_zero n h)
  where
    int_text_sign :
        (start : ℕ) (ds : List ℕ)
        → is_utf8 (43 ∷ 48 ∷ ds) ≡ true
        → parse_i64 (43 ∷ 48 ∷ ds) ≡ some (pos n)
        → int_text start (43 ∷ 48 ∷ ds) ≡ ok (int (pos n))
    int_text_sign start ds text parses = unfold int_text in ground arith

-- A string.

scan_length-digits :
    (start here acc : ℕ) (ds rest : List ℕ) (n : ℕ)
    → magnitude usize_max acc ds ≡ some n
    → scan_length start here acc (ds ++ 58 ∷ rest) ≡ ok (here + length ds + 1, n)
unfolding scan_length magnitude
scan_length-digits start here acc [] rest n h =
    let e : here + 1 ≡ here + 0 + 1 = omega arith in ground arith
scan_length-digits start here acc (b ∷ ds) rest n h =
    ground (arith, scan_length-digits start (here + 1) (acc * 10 + (b - 48)) ds rest n)

read_exactly-unread :
    (start : ℕ) (d : Decoder) (here : ℕ) (b rest : List ℕ)
    → drop here d.input ≡ b ++ rest
    → here + length b ≤ length d.input
    → length d.input < 2 ^ 63
    → read_exactly start d here (length b) ≡ ok (bytes b, record d { pos = here + length b })
unfolding read_exactly
read_exactly-unread start d here b rest e fits small =
    let no_overflow : ltb usize_max (here + length b) ≡ false = ground arith in
    let inside : ltb (length d.input) (here + length b) ≡ false = ground arith in
    rw (no_overflow, inside, e, take-append b rest)

pub decode_bytes-unread :
    (d : Decoder) (b rest : List ℕ)
    → length d.input < 2 ^ 63
    → unread d ≡ encode_bytes b ++ rest
    → decode_bytes d ≡ ok (bytes b, skip d (length (encode_bytes b)))
unfolding decode_bytes encode_bytes
decode_bytes-unread d b rest small e =
    let text = decimal (length b) in
    let e₁ : unread d ≡ text ++ 58 ∷ (b ++ rest) = e ∙ append_assoc text (58 ∷ b) rest in
    let sizes : length d.input - d.pos ≡ length text + suc (length b + length rest) = omega (
      arith,
      ap length e₁,
      length-drop d.pos d.input,
      length-append text (58 ∷ (b ++ rest)),
      length-append b rest,
    ) in
    let behind : drop (d.pos + length text + 1) d.input ≡ b ++ rest =
      unread-skip_one (skip d (length text)) 58 (b ++ rest)
        (unread-skip d text (58 ∷ (b ++ rest)) e₁) in
    let total : d.pos + length text + 1 + length b ≡ d.pos + length (text ++ 58 ∷ b) =
      omega (arith, length-append text (58 ∷ b)) in
    rw e₁ (
      rw
        (scan_length-digits d.pos d.pos 0 text (b ++ rest) (length b)
          (magnitude-decimal usize_max (length b) (omega arith)))
        (rw
          (read_exactly-unread d.pos d (d.pos + length text + 1) b rest behind (omega arith) small)
          (ap (λ q. ok (bytes b, record d { pos = q })) total)))
