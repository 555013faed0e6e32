-- ===== src/Prelude/Words.antt =====
-- Big-endian words: `put_u32` and `get_u32` of the wire formats, as lists of bytes.
use Prim.Native.Nat.{ℕ, ◌+◌, ◌*◌, ◌/◌, ◌%◌, ◌^◌, ◌<◌}
use mathlib.Core.Path.{◌≡◌, refl}
use mathlib.Core.Bool.{Bool, true, false, ◌&&◌}
use moviehouse.Prelude.Tests.{◌==◌}
use mathlib.Core.List.{List, [], ◌∷◌, ◌++◌}
use mathlib.Core.Option.{Option, none, some}
use native.Mathlib.Omega.{arith}

-- `buf.put_u32(n)`, `n.to_be_bytes()` for a `u32`
unfoldable pub put_u32 : ℕ → List ℕ
put_u32 n = (n / 2 ^ 24 % 256) ∷ (n / 2 ^ 16 % 256) ∷ (n / 2 ^ 8 % 256) ∷ (n % 256) ∷ []

-- `u32::from_be_bytes([a, b, c, d])`
unfoldable pub u32_from_be : ℕ → ℕ → ℕ → ℕ → ℕ
u32_from_be a b c d = a * 2 ^ 24 + b * 2 ^ 16 + c * 2 ^ 8 + d

-- `data.get_u32()`: `none` stands for the panic on fewer than four bytes.
unfoldable pub get_u32 : List ℕ → Option (ℕ × List ℕ)
unfolding u32_from_be
get_u32 (a ∷ b ∷ c ∷ d ∷ rest) = some (u32_from_be a b c d, rest)
get_u32 _ = none

-- A byte of the wire.
abbrev pub IsByte : ℕ → Type 0
IsByte b = b < 256

abbrev pub AllBytes : List ℕ → Type 0
AllBytes [] = Unit
AllBytes (b ∷ bs) = IsByte b × AllBytes bs

abbrev pub IsU32 : ℕ → Type 0
IsU32 n = n < 2 ^ 32

pub get_u32-put_u32 :
    (n : ℕ) (rest : List ℕ) → IsU32 n → get_u32 (put_u32 n ++ rest) ≡ some (n, rest)
unfolding get_u32 put_u32
get_u32-put_u32 n rest h =
    let e : u32_from_be (n / 2 ^ 24 % 256) (n / 2 ^ 16 % 256) (n / 2 ^ 8 % 256) (n % 256) ≡ n =
      (unfold u32_from_be in omega arith) in
    λ i. some (e i, rest)

-- `==` on byte slices.
abbrev pub eq_bytes : List ℕ → List ℕ → Bool
eq_bytes [] [] = true
eq_bytes (a ∷ as') (b ∷ bs) = (a == b) && eq_bytes as' bs
eq_bytes _ _ = false

pub eq_bytes_refl : (xs : List ℕ) → eq_bytes xs xs ≡ true
eq_bytes_refl [] = refl
eq_bytes_refl (x ∷ xs) = ground (arith, eq_bytes_refl xs)

pub eq_bytes→eq : (xs ys : List ℕ) → eq_bytes xs ys ≡ true → xs ≡ ys
eq_bytes→eq [] [] h = refl
eq_bytes→eq [] (y ∷ ys) h = cc
eq_bytes→eq (x ∷ xs) [] h = cc
eq_bytes→eq (x ∷ xs) (y ∷ ys) h = ground (arith, eq_bytes→eq xs ys)
