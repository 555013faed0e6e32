-- ===== src/Bencode/Whole.antt =====
-- src/bencode/: the codec as its clients call it, `encode`, `decode` and `decode_with_range`.
use moviehouse.Prelude.{
  ℕ, zero, suc, ◌+◌, ◌*◌, ◌^◌, ◌≤◌, ◌<◌, ◌≡◌, refl, ap, arith, List, [], ◌∷◌, ◌++◌, append-nil,
  length, length-append, Outcome, ok, ◌>>=◌, >>=-eq-ok, pos, All, All-map, ◌≢◌,
}
use mathlib.Core.Path.{subst}
use moviehouse.Bencode.Value.{BValue, int}
use moviehouse.Bencode.Decimal.{decimal}
use moviehouse.Bencode.Decimal.Digits.{decimal-digits}
use moviehouse.Bencode.Encode.{encode}
use moviehouse.Bencode.Decode.{
  Decoder, DecodeError, DecodeResult, Step, new, decode_value, decode_at, decode_with_range, decode,
  decode_int, max_depth,
}
use moviehouse.Bencode.Decode.Tokens.{
  skip, unread, peek-unread, decode_int-text, int_text-plus_zero,
}
use moviehouse.Bencode.RoundTrip.{value-reads}
use moviehouse.Bencode.RoundTrip.Brackets.{Fits}
use moviehouse.Bencode.Sound.{Runs, moved, stopped, Yields, value, failed}
use moviehouse.Bencode.Sound.Values.{value-Runs}

decode_at-encode :
    (v : BValue) (rest : List ℕ)
    → Fits max_depth v
    → length (encode v ++ rest) < 2 ^ 63
    → decode_at (new (encode v ++ rest)) ≡ ok (v, skip (new (encode v ++ rest)) (length (encode v)))
unfolding decode_at new
decode_at-encode v rest h small =
    value-reads v _ max_depth (new (encode v ++ rest)) rest (omega arith) h small refl
      (omega (arith, length-append (encode v) rest))

-- A value that fits the limits of the decoder is read back from its encoding, whatever bytes follow,
-- and the range that is returned is that of the encoding. The input is shorter than 2^63 bytes.
pub decode_with_range-encode :
    (v : BValue) (rest : List ℕ)
    → Fits max_depth v
    → length (encode v ++ rest) < 2 ^ 63
    → decode_with_range (encode v ++ rest)
      ≡ ok (record { value = v; start = 0; end = length (encode v) })
unfolding decode_with_range
decode_with_range-encode v rest h small = rw (decode_at-encode v rest h small) (
    let e : 0 + length (encode v) ≡ length (encode v) = omega arith in
    ap (λ q. ok (record { value = v; start = 0; end = q })) e)

pub decode-encode :
    (v : BValue) → Fits max_depth v → length (encode v) < 2 ^ 63 → decode (encode v) ≡ ok v
unfolding decode
decode-encode v h small =
    let whole = decode_with_range-encode v [] h (rw append-nil small) in rw (rw append-nil at whole)

-- What `decode_with_range` says of its result.
pub record InRange (input : List ℕ) (r : DecodeResult) : Type 0 where
  pub fits : Fits max_depth r.value
  pub starts : r.start ≡ 0
  pub nonempty : 0 < r.end
  pub inside : r.end ≤ length input

decode_at-Runs : (input : List ℕ) → Runs 1 (new input) (Fits max_depth) (decode_at (new input))
unfolding decode_at new
decode_at-Runs input = value-Runs _ max_depth (new input) (omega arith) (omega arith)

-- On every input the decoder ends within its fuel, by a value or by one of its errors and not by a
-- panic. A value that it returns fits its limits, and the range stays inside the input.
pub decode_with_range-Yields : (input : List ℕ) → Yields (InRange input) (decode_with_range input)
unfolding decode_with_range
decode_with_range-Yields input = go (decode_at-Runs input)
  where
    go :
        {m : Step BValue}
        → Runs 1 (new input) (Fits max_depth) m
        → Yields
            (InRange input)
            (m >>= λ r. ok (record { value = r.0; start = (new input).pos; end = r.1.pos }))
    go (moved h fits) = value (record {
      fits = fits;
      starts = refl;
      nonempty = omega (arith, h.forward);
      inside = h.inside;
    })
    go (stopped e) = failed e

Yields-ok :
    {A : Type 0} {P : A → Type 0} {r : Outcome DecodeError A} {a : A} → Yields P r → r ≡ ok a → P a
Yields-ok {P} (value h) e = subst P (cc) h
Yields-ok (failed h) e = cc

decode-Fits : (input : List ℕ) (v : BValue) → decode input ≡ ok v → Fits max_depth v
unfolding decode
decode-Fits input v e =
    let (r, e₁, e₂) = >>=-eq-ok (decode_with_range input) (λ r. ok r.value) e in
    let e₃ : r.value ≡ v = cc e₂ in rw (← e₃) (Yields-ok (decode_with_range-Yields input) e₁).fits

-- Whatever was decoded, its encoding decodes to the same value: unsorted keys, repeated keys and
-- numbers written in another way are gone after one turn. The encoding is shorter than 2^63 bytes.
pub decode-encode-decode :
    (input : List ℕ) (v : BValue)
    → decode input ≡ ok v
    → length (encode v) < 2 ^ 63
    → decode (encode v) ≡ ok v
decode-encode-decode input v e small = decode-encode v (decode-Fits input v e) small

-- Different values that fit the limits have different encodings, if these are shorter than 2^63 bytes.
pub encode-injective :
    (v w : BValue)
    → Fits max_depth v
    → Fits max_depth w
    → length (encode v) < 2 ^ 63
    → encode v ≡ encode w
    → v ≡ w
encode-injective v w hv hw small e =
    cc (decode-encode v hv small, decode-encode w hw (rw (← e) small))

decode_value-lead_int :
    (f : ℕ) (d : Decoder) (ys : List ℕ)
    → 0 < f
    → unread d ≡ 105 ∷ ys
    → decode_value f d ≡ decode_int d
unfolding decode_value
decode_value-lead_int zero d ys h e = elim h [ ]
decode_value-lead_int (suc f) d ys h e = rw (peek-unread d 105 ys e)

plus_zero_no_e : (n : ℕ) → All (λ b. b ≢ 101) (43 ∷ 48 ∷ decimal n)
plus_zero_no_e n =
    (omega arith, (omega arith, All-map (decimal n) (λ b h. omega arith) (decimal-digits n)))

-- An integer whose digits are written behind a plus sign and a zero is accepted, with the value of
-- those digits. This holds for every number of the non-negative range of an `i64`.
pub decode-plus_zero :
    (n : ℕ) → n < 2 ^ 63 → decode (105 ∷ (43 ∷ 48 ∷ decimal n) ++ 101 ∷ []) ≡ ok (int (pos n))
unfolding decode decode_with_range
decode-plus_zero n h =
    let text = 43 ∷ 48 ∷ decimal n in
    let d = new (105 ∷ text ++ 101 ∷ []) in
    rw (decode_value-lead_int (2 * length (unread d) + 1) d (text ++ 101 ∷ []) (omega arith) refl) (
      rw (
        decode_int-text d (int (pos n)) text [] (plus_zero_no_e n)
          (int_text-plus_zero (d.pos + 1) n h) refl))
