-- ===== src/Bencode/Sound/Steps.antt =====
-- src/bencode/decode.rs: the routines below `decode_value`, on any input.
use moviehouse.Prelude.{
  ℕ, zero, suc, ◌+◌, ◌-◌, ◌*◌, ◌^◌, ◌≤◌, ◌<◌, ◌≡◌, refl, ◌∙◌, arith, ap, List, [], ◌∷◌, Option,
  none, some, length, get_elem?, take, drop, Outcome, ok, err, Bool, true, false, not,
  if◌then◌else◌, leb, ltb, ◌==◌, IsI64, ℤ, pos, inl, inr, Bool-cases,
}
use moviehouse.Bencode.Value.{BValue, int}
use moviehouse.Bencode.Decimal.{magnitude, negate, signed, parse_i64, is_digit}
use moviehouse.Bencode.RoundTrip.Brackets.{Fits}
use moviehouse.Bencode.Decode.{
  Decoder, DecodeError, invalid_integer, leading_zero, negative_zero, invalid_string_length,
  string_length_overflow, peek, advance, expect, find_end, end_of_int, int_text, decode_int,
  scan_length, read_exactly, decode_bytes, usize_max,
}
use moviehouse.Bencode.Sound.{
  Runs, moved, stopped, Yields, value, failed, Runs-bind, Yields-bind, Runs-if,
}

-- A byte is there.
pub record At (d : Decoder) (b : ℕ) : Type 0 where
  pub byte : get_elem? d.input d.pos ≡ some b
  pub inside : d.pos < length d.input

get_elem?-lt : (xs : List ℕ) (i b : ℕ) → get_elem? xs i ≡ some b → i < length xs
get_elem?-lt [] i b h = cc
get_elem?-lt (x ∷ xs) zero b h = omega arith
get_elem?-lt (x ∷ xs) (suc i) b h = omega (arith, get_elem?-lt xs i b h)

pub peek-Yields : (d : Decoder) → Yields (At d) (peek d)
unfolding peek
peek-Yields d = go (get_elem? d.input d.pos) refl
  where
    go : (o : Option ℕ) → get_elem? d.input d.pos ≡ o → Yields (At d) (peek d)
    go none e = rw (e, peek) (failed (cc))
    go (some b) e =
        rw (e, peek) (value (record { byte = e; inside = get_elem?-lt d.input d.pos b e }))

advance-Runs : (d : Decoder) → Runs 1 d (λ (b : ℕ). Unit {0}) (advance d)
unfolding advance
advance-Runs d = Yields-bind _ (peek-Yields d) λ b at.
    moved
      (record {
        same_input = refl;
        same_depth = refl;
        forward = omega arith;
        inside = omega (arith, at.inside);
      })
      tt

pub expect-Runs : (b : ℕ) (d : Decoder) → Runs 1 d (λ (u : Unit {0}). Unit {0}) (expect b d)
unfolding expect
expect-Runs b d =
    Runs-bind _ (advance-Runs d)
      λ c d' m _. Runs-if (c == b) (λ e. moved m tt) (λ e. stopped (λ q. cc))

-- Integers.

magnitude-le :
    (limit acc : ℕ) (xs : List ℕ) (n : ℕ)
    → acc ≤ limit
    → magnitude limit acc xs ≡ some n
    → n ≤ limit
unfolding magnitude
magnitude-le limit acc [] n h e = ground arith
magnitude-le limit acc (b ∷ bs) n h e =
    ground (arith, magnitude-le limit (acc * 10 + (b - 48)) bs n)

signed-IsI64 : (minus : Bool) (xs : List ℕ) (n : ℤ) → signed minus xs ≡ some n → IsI64 n
unfolding signed
signed-IsI64 minus [] n e = cc
signed-IsI64 true (b ∷ bs) n e = go (magnitude (2 ^ 63) 0 (b ∷ bs)) refl
  where
    below : (m : ℕ) → m ≤ 2 ^ 63 → IsI64 (negate m)
    below zero h = omega arith
    below (suc m) h = omega arith

    go : (o : Option ℕ) → magnitude (2 ^ 63) 0 (b ∷ bs) ≡ o → IsI64 n
    go none q = cc (rw (q, signed) at e)
    go (some m) q =
        let e' : some (negate m) ≡ some n = rw (q, signed) at e in
        let same : negate m ≡ n = cc e' in
        rw (← same) (below m (magnitude-le (2 ^ 63) 0 (b ∷ bs) m (omega arith) q))
signed-IsI64 false (b ∷ bs) n e = go (magnitude (2 ^ 63 - 1) 0 (b ∷ bs)) refl
  where
    go : (o : Option ℕ) → magnitude (2 ^ 63 - 1) 0 (b ∷ bs) ≡ o → IsI64 n
    go none q = cc (rw (q, signed) at e)
    go (some m) q =
        let e' : some (pos m) ≡ some n = rw (q, signed) at e in
        let same : pos m ≡ n = cc e' in
        rw (← same) (omega (arith, magnitude-le (2 ^ 63 - 1) 0 (b ∷ bs) m (omega arith) q))

parse_i64-IsI64 : (xs : List ℕ) (n : ℤ) → parse_i64 xs ≡ some n → IsI64 n
unfolding parse_i64
parse_i64-IsI64 [] n e = cc
parse_i64-IsI64 (b ∷ bs) n e = elim (Bool-cases (b == 45)) [
  | inl q ↦ signed-IsI64 true bs n (rw q at e)
  | inr q ↦ elim (Bool-cases (b == 43)) [
    | inl r ↦ signed-IsI64 false bs n (rw (q, r) at e)
    | inr r ↦ signed-IsI64 false (b ∷ bs) n (rw (q, r) at e)
  ]
]

module _ {A : Type 0} {P : A → Type 0} where
  Yields-if :
      (b : Bool) {m n : Outcome DecodeError A}
      → Yields P m
      → Yields P n
      → Yields P (if b then m else n)
  Yields-if true hm hn = hm
  Yields-if false hm hn = hn

  Yields-map :
      {Q : A → Type 0} {m : Outcome DecodeError A} → Yields P m → ((a : A) → P a → Q a) → Yields Q m
  Yields-map (value {a} p) f = value (f a p)
  Yields-map (failed e) f = failed e

-- A value that needs no level: a number in range or a string.
abbrev pub IsFlat : BValue → Type 0
IsFlat v = (l : ℕ) → Fits l v

int_text-Yields : (start : ℕ) (xs : List ℕ) → Yields IsFlat (int_text start xs)
unfolding int_text Fits
int_text-Yields start xs = Yields-if _ (failed {e = invalid_integer start} (λ q. cc)) (
    Yields-if _ (failed {e = leading_zero start} (λ q. cc)) (
      Yields-if _ (failed {e = negative_zero start} (λ q. cc))
        (Yields-if _ (failed {e = leading_zero start} (λ q. cc)) (go (parse_i64 xs) refl))))
  where
    go :
        (o : Option ℤ)
        → parse_i64 xs ≡ o
        → Yields IsFlat
            (elim (parse_i64 xs) [ none ↦ err (invalid_integer start) | some n ↦ ok (int n) ])
    go none e = rw e (failed (cc))
    go (some n) e = rw e (value (λ l. parse_i64-IsI64 xs n e))

end_of_int-Yields : (d : Decoder) → Yields (λ stop. d.pos ≤ stop) (end_of_int d)
unfolding end_of_int
end_of_int-Yields d = go (find_end (drop d.pos d.input)) refl
  where
    go :
        (o : Option ℕ)
        → find_end (drop d.pos d.input) ≡ o
        → Yields (λ stop. d.pos ≤ stop) (end_of_int d)
    go none e = rw (e, end_of_int) (failed (cc))
    go (some i) e = rw (e, end_of_int) (value (omega arith))

pub decode_int-Runs : (d : Decoder) → Runs 1 d IsFlat (decode_int d)
unfolding decode_int
decode_int-Runs d = Runs-bind _ (expect-Runs 105 d) λ _ d₁ m _.
    Yields-bind _ (end_of_int-Yields d₁) λ stop le.
      Yields-bind _ (int_text-Yields d₁.pos (take (stop - d₁.pos) (drop d₁.pos d₁.input))) λ v fits.
        Runs-bind _ (expect-Runs 101 (record d₁ { pos = stop })) λ _ d₂ m₂ _.
          moved
            (record {
              same_input = m₂.same_input ∙ m.same_input;
              same_depth = m₂.same_depth ∙ m.same_depth;
              forward = omega (arith, m.forward, m₂.forward);
              inside = omega (arith, m₂.inside, ap length m.same_input);
            })
            fits

-- Strings.

scan_length-Yields :
    (start here len : ℕ) (xs : List ℕ)
    → Yields (λ (stop, _). here + 1 ≤ stop) (scan_length start here len xs)
unfolding scan_length
scan_length-Yields start here len [] = failed (cc)
scan_length-Yields start here len (b ∷ bs) = Yields-if (b == 58) (value (omega arith)) (
    Yields-if (not (is_digit b)) (failed {e = invalid_string_length start} (λ q. cc)) (
      Yields-if (leb (len * 10 + (b - 48)) usize_max)
        (Yields-map (scan_length-Yields start (here + 1) (len * 10 + (b - 48)) bs)
          (λ r le. omega (arith, le)))
        (failed {e = string_length_overflow start} (λ q. cc))))

read_exactly-Runs :
    (start : ℕ) (d : Decoder) (here len : ℕ)
    → d.pos + 1 ≤ here
    → Runs 1 d IsFlat (read_exactly start d here len)
unfolding read_exactly Fits
read_exactly-Runs start d here len h =
    Runs-if (ltb usize_max (here + len)) (λ _. stopped (λ q. cc))
      λ _.
        Runs-if (ltb (length d.input) (here + len)) (λ _. stopped (λ q. cc))
          λ fits.
            moved
              (record {
                same_input = refl;
                same_depth = refl;
                forward = omega arith;
                inside = ground arith;
              })
              (λ l. tt)

pub decode_bytes-Runs : (d : Decoder) → Runs 1 d IsFlat (decode_bytes d)
unfolding decode_bytes
decode_bytes-Runs d =
    Yields-bind _ (scan_length-Yields d.pos d.pos 0 (drop d.pos d.input))
      λ (stop, len) le. read_exactly-Runs d.pos d stop len le
