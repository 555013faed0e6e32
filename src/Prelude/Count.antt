-- ===== src/Prelude/Count.antt =====
-- How many of the numbers below `n` pass a test.
use Prim.Native.Nat.{ℕ, zero, suc, ◌+◌, ◌≤◌, ◌<◌}
use mathlib.Core.Path.{◌≡◌, refl}
use mathlib.Core.Logic.{inl, inr}
use mathlib.Core.Bool.{Bool, true, false, ◌&&◌}
use native.Mathlib.Omega.{arith}
use moviehouse.Prelude.Tests.{◌==◌, if◌then◌else◌, Bool-cases, le_or_lt}

unfoldable pub count_true : (ℕ → Bool) → ℕ → ℕ
count_true f zero = 0
count_true f (suc n) = if f n then count_true f n + 1 else count_true f n

pub count_true-le : (f : ℕ → Bool) (n : ℕ) → count_true f n ≤ n
unfolding count_true
count_true-le f zero = omega arith
count_true-le f (suc n) = ground (arith, count_true-le f n)

pub count_true-congr :
    (f g : ℕ → Bool) (n : ℕ) → ((j : ℕ) → j < n → f j ≡ g j) → count_true f n ≡ count_true g n
unfolding count_true
count_true-congr f g zero h = refl
count_true-congr f g (suc n) h =
    ground (arith, h n (omega arith), count_true-congr f g n (λ j lt. h j (omega arith)))

-- One more passes.
pub count_true-set :
    (f g : ℕ → Bool) (i n : ℕ)
    → f i ≡ false
    → ((j : ℕ) → g j ≡ (if i == j then true else f j))
    → i < n
    → count_true g n ≡ count_true f n + 1
unfolding count_true
count_true-set f g i zero off h lt = absurd (omega arith)
count_true-set f g i (suc n) off h lt = elim (Bool-cases (i == n)) [
  | inl e ↦
      let same : count_true g n ≡ count_true f n =
        count_true-congr g f n (λ j below. ground (arith, h j)) in
      ground (arith, h n, off)
  | inr e ↦ ground (arith, h n, count_true-set f g i n off h (ground arith))
]

-- All pass exactly when the count says so.
pub count_true-full : (f : ℕ → Bool) (n : ℕ) → count_true f n ≡ n → (j : ℕ) → j < n → f j ≡ true
unfolding count_true
count_true-full f zero e j h = absurd (omega arith)
count_true-full f (suc n) e j h = elim (Bool-cases (j == n)) [
  | inl q ↦ ground (arith, count_true-le f n)
  | inr q ↦ ground (
    arith,
    count_true-le f n,
    count_true-full f n (ground (arith, count_true-le f n)) j (ground arith),
  )
]

pub full-count_true : (f : ℕ → Bool) (n : ℕ) → ((j : ℕ) → j < n → f j ≡ true) → count_true f n ≡ n
unfolding count_true
full-count_true f zero h = refl
full-count_true f (suc n) h =
    ground (arith, h n (omega arith), full-count_true f n (λ j lt. h j (omega arith)))

-- A test that every number below a bound passes, as a computation.
unfoldable pub all_below : ℕ → (ℕ → Bool) → Bool
all_below zero test = true
all_below (suc bound) test = all_below bound test && test bound

pub all_below_sound :
    (bound : ℕ) (test : ℕ → Bool) (i : ℕ) → i < bound → all_below bound test ≡ true → test i ≡ true
unfolding all_below
all_below_sound zero test i lt all = absurd (omega arith)
all_below_sound (suc bound) test i lt all = elim (le_or_lt bound i) [
  | inl at ↦ let e : bound ≡ i = omega arith in rw (← e) (ground arith)
  | inr _ ↦ ground (arith, all_below_sound bound test i)
]
