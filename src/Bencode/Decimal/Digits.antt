-- ===== src/Bencode/Decimal/Digits.antt =====
-- src/bencode/encode.rs and decode.rs: the decimal text of a number is read back as that number.
use moviehouse.Prelude.{
  ℕ, zero, suc, ◌+◌, ◌-◌, ◌*◌, ◌/◌, ◌%◌, ◌^◌, ◌≤◌, ◌<◌, ◌≡◌, refl, ap, ◌∙◌, arith, List, [], ◌∷◌,
  ◌++◌, true, false, Option, none, some, ℤ, pos, negsuc, ltb, All, All-append, Bool-cases, inl, inr,
  IsI64,
}
use moviehouse.Bencode.Decimal.{decimal_fuel, decimal, decimal_int, magnitude, signed, parse_i64}

abbrev pub IsDigit : ℕ → Type 0
IsDigit b = (48 ≤ b) × (b ≤ 57)

decimal_fuel-digits : (f n : ℕ) → All IsDigit (decimal_fuel f n)
unfolding decimal_fuel
decimal_fuel-digits zero n = tt
decimal_fuel-digits (suc f) n = elim (Bool-cases (ltb n 10)) [
  | inl e ↦ rw e (ground arith, tt)
  | inr e ↦ rw e (
      All-append IsDigit (decimal_fuel f (n / 10)) ((48 + n % 10) ∷ [])
        (decimal_fuel-digits f (n / 10)) (omega arith, tt))
]

pub decimal-digits : (n : ℕ) → All IsDigit (decimal n)
unfolding decimal
decimal-digits n = decimal_fuel-digits (suc n) n

continue : ℕ → ℕ → Option ℕ → Option ℕ
continue limit b none = none
continue limit b (some acc) = magnitude limit acc (b ∷ [])

magnitude-snoc :
    (limit acc : ℕ) (xs : List ℕ) (b : ℕ)
    → magnitude limit acc (xs ++ b ∷ []) ≡ continue limit b (magnitude limit acc xs)
unfolding magnitude continue
magnitude-snoc limit acc [] b = refl
magnitude-snoc limit acc (x ∷ xs) b =
    ground (arith, magnitude-snoc limit (acc * 10 + (x - 48)) xs b)

magnitude-decimal_fuel :
    (limit f n : ℕ) → n < f → n ≤ limit → magnitude limit 0 (decimal_fuel f n) ≡ some n
unfolding decimal_fuel
magnitude-decimal_fuel limit zero n h k = absurd (omega arith)
magnitude-decimal_fuel limit (suc f) n h k = elim (Bool-cases (ltb n 10)) [
  | inl e ↦ rw e (unfold magnitude in ground arith)
  | inr e ↦ rw e (
      rw (magnitude-snoc limit 0 (decimal_fuel f (n / 10)) (48 + n % 10)) (
        rw (magnitude-decimal_fuel limit f (n / 10) (ground arith) (omega arith))
          (unfold magnitude continue in ground arith)))
]

-- The text of a number within the limit reads as that number.
pub magnitude-decimal : (limit n : ℕ) → n ≤ limit → magnitude limit 0 (decimal n) ≡ some n
unfolding decimal
magnitude-decimal limit n h = magnitude-decimal_fuel limit (suc n) n (omega arith) h

-- The first digit, which is not 0 unless the number is.
pub record Leading (n : ℕ) (text : List ℕ) : Type 0 where
  pub digit : ℕ
  pub later : List ℕ
  pub splits : text ≡ digit ∷ later
  pub is_digit : IsDigit digit
  pub nonzero : 0 < n → 49 ≤ digit
  pub alone : n < 10 → later ≡ []

decimal_fuel-Leading : (f n : ℕ) → n < f → Leading n (decimal_fuel f n)
unfolding decimal_fuel
decimal_fuel-Leading zero n h = absurd (omega arith)
decimal_fuel-Leading (suc f) n h = elim (Bool-cases (ltb n 10)) [
  | inl e ↦ rw e (record {
    digit = 48 + n;
    later = [];
    splits = refl;
    is_digit = ground arith;
    nonzero = λ p. omega arith;
    alone = λ p. refl;
  })
  | inr e ↦
      let first = decimal_fuel-Leading f (n / 10) (ground arith) in
      rw e (record {
        digit = first.digit;
        later = first.later ++ (48 + n % 10) ∷ [];
        splits = ap (λ l. l ++ (48 + n % 10) ∷ []) first.splits;
        is_digit = first.is_digit;
        nonzero = λ p. first.nonzero (ground arith);
        alone = λ p. absurd (ground arith);
      })
]

pub decimal-Leading : (n : ℕ) → Leading n (decimal n)
unfolding decimal
decimal-Leading n = decimal_fuel-Leading (suc n) n (omega arith)

unsigned-Leading : {n : ℕ} (text : List ℕ) → Leading n text → parse_i64 text ≡ signed false text
unfolding parse_i64
unsigned-Leading text l = rw l.splits (ground (arith, l.is_digit))

signed-plus :
    {n : ℕ} (text : List ℕ)
    → Leading n text
    → magnitude (2 ^ 63 - 1) 0 text ≡ some n
    → signed false text ≡ some (pos n)
unfolding signed
signed-plus [] l m = cc (l.splits)
signed-plus (b ∷ bs) l m = rw (m, signed)

signed-minus :
    {n : ℕ} (text : List ℕ)
    → Leading (suc n) text
    → magnitude (2 ^ 63) 0 text ≡ some (suc n)
    → signed true text ≡ some (negsuc n)
unfolding signed
signed-minus [] l m = cc (l.splits)
signed-minus (b ∷ bs) l m = rw (m, signed)

-- The text of an `i64` parses as that number.
pub parse_i64-decimal_int : (n : ℤ) → IsI64 n → parse_i64 (decimal_int n) ≡ some n
unfolding decimal_int
parse_i64-decimal_int (pos n) h =
    let first = decimal-Leading n in
    unsigned-Leading (decimal n) first
    ∙ signed-plus (decimal n) first (magnitude-decimal (2 ^ 63 - 1) n (omega arith))
parse_i64-decimal_int (negsuc n) h =
    unfold parse_i64 in
    signed-minus (decimal (suc n)) (decimal-Leading (suc n))
      (magnitude-decimal (2 ^ 63) (suc n) (omega arith))

magnitude-zero : (limit : ℕ) (ds : List ℕ) → magnitude limit 0 (48 ∷ ds) ≡ magnitude limit 0 ds
unfolding magnitude
magnitude-zero limit ds = ground arith

pub parse_i64-plus_zero : (n : ℕ) → n < 2 ^ 63 → parse_i64 (43 ∷ 48 ∷ decimal n) ≡ some (pos n)
unfolding parse_i64
parse_i64-plus_zero n h =
    let e =
      magnitude-zero (2 ^ 63 - 1) (decimal n) ∙ magnitude-decimal (2 ^ 63 - 1) n (omega arith) in
    rw (e, signed)
