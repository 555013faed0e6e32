-- ===== src/Bencode/Decimal.antt =====
-- Numbers as decimal text: `to_string` and `parse` of the standard library, as the codec uses them.
pub mod Digits
use moviehouse.Prelude.{
  ℕ, zero, suc, ◌+◌, ◌-◌, ◌*◌, ◌/◌, ◌%◌, ◌^◌, ◌≤◌, ◌<◌, ◌≡◌, refl, arith, List, [], ◌∷◌, ◌++◌, Bool,
  true, false, ◌&&◌, Option, none, some, ℤ, pos, negsuc, leb, ltb, ◌==◌, if◌then◌else◌,
}

decimal_fuel : ℕ → ℕ → List ℕ
decimal_fuel zero n = []
decimal_fuel (suc f) n =
    let more = decimal_fuel f (n / 10) ++ (48 + n % 10) ∷ [] in
    if ltb n 10 then (48 + n) ∷ [] else more

-- `n.to_string()` of a `usize`. Each digit takes a round.
unfoldable pub decimal : ℕ → List ℕ
unfolding decimal_fuel
decimal n = decimal_fuel (suc n) n

-- `n.to_string()` of an `i64`
unfoldable pub decimal_int : ℤ → List ℕ
decimal_int (pos n) = decimal n
decimal_int (negsuc n) = 45 ∷ decimal (suc n)

abbrev pub is_digit : ℕ → Bool
is_digit b = leb 48 b && leb b 57

-- The digits of a magnitude: `checked_mul` and `checked_add` (or `checked_sub`) up to a limit.
unfoldable pub magnitude : ℕ → ℕ → List ℕ → Option ℕ
magnitude limit acc [] = some acc
magnitude limit acc (b ∷ bs) =
    let next = acc * 10 + (b - 48) in
    let rest = magnitude limit next bs in if is_digit b && leb next limit then rest else none

unfoldable pub negate : ℕ → ℤ
negate zero = pos zero
negate (suc n) = negsuc n

-- After the sign, at least one digit.
unfoldable pub signed : Bool → List ℕ → Option ℤ
unfolding negate
signed minus [] = none
signed true (b ∷ bs) = elim (magnitude (2 ^ 63) 0 (b ∷ bs)) [
  | none ↦ none
  | some n ↦ some (negate n)
]
signed false (b ∷ bs) = elim (magnitude (2 ^ 63 - 1) 0 (b ∷ bs)) [
  | none ↦ none
  | some n ↦ some (pos n)
]

-- `num_str.parse::<i64>()`: a sign, `+` too, and digits.
unfoldable pub parse_i64 : List ℕ → Option ℤ
unfolding signed
parse_i64 [] = none
parse_i64 (b ∷ bs) =
    if b == 45 then signed true bs else if b == 43 then signed false bs else signed false (b ∷ bs)

parse_i64_runs :
    (parse_i64 (45 ∷ 49 ∷ 50 ∷ []) ≡ some (negsuc 11)) × (parse_i64 (43 ∷ 55 ∷ []) ≡ some (pos 7))
unfolding parse_i64 magnitude
parse_i64_runs = (refl, refl)

decimal_runs :
    decimal 1_000_000_000_020 ≡ 49 ∷ 48 ∷ 48 ∷ 48 ∷ 48 ∷ 48 ∷ 48 ∷ 48 ∷ 48 ∷ 48 ∷ 48 ∷ 50 ∷ 48 ∷ []
unfolding decimal
decimal_runs = refl
