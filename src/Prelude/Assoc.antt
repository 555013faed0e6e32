-- ===== src/Prelude/Assoc.antt =====
-- `HashMap` with numbers for keys: the list of its entries, in the order in which it is iterated.
use Prim.Native.Nat.{ℕ, suc, ◌+◌, ◌≤◌}
use mathlib.Core.Path.{◌≡◌, refl, ap}
use mathlib.Core.Bool.{Bool, true, false}
use mathlib.Core.List.{List, [], ◌∷◌}
use mathlib.Core.Option.{Option, none, some}
use native.Mathlib.Omega.{arith}
use mathlib.Core.Logic.{inl, inr}
use moviehouse.Prelude.Tests.{◌==◌, if◌then◌else◌, Bool-cases}
use moviehouse.Prelude.Lists.{length}

module _ {ℓ} {V : Type ℓ} where
  -- `map.get(&k)`
  unfoldable pub find : ℕ → List (ℕ × V) → Option V
  find k [] = none
  find k ((j, v) ∷ m) = if j == k then some v else find k m

  -- `map.contains_key(&k)`
  unfoldable pub contains_key : ℕ → List (ℕ × V) → Bool
  contains_key k [] = false
  contains_key k ((j, v) ∷ m) = if j == k then true else contains_key k m

  -- `map.insert(k, v)`, and a write through `get_mut`
  unfoldable pub put : ℕ → V → List (ℕ × V) → List (ℕ × V)
  put k v [] = (k, v) ∷ []
  put k v ((j, w) ∷ m) = let later = put k v m in if j == k then (k, v) ∷ m else (j, w) ∷ later

  -- `map.remove(&k)`
  unfoldable pub remove : ℕ → List (ℕ × V) → List (ℕ × V)
  remove k [] = []
  remove k ((j, w) ∷ m) = let later = remove k m in if j == k then later else (j, w) ∷ later

  pub find-put :
      (k j : ℕ) (v : V) (m : List (ℕ × V))
      → find j (put k v m) ≡ (if k == j then some v else find j m)
  unfolding find put
  find-put k j v [] = refl
  find-put k j v ((i, w) ∷ m) = ground (arith, find-put k j v m)

  pub find-remove :
      (k j : ℕ) (m : List (ℕ × V)) → find j (remove k m) ≡ (if k == j then none else find j m)
  unfolding find remove
  find-remove k j [] = ground arith
  find-remove k j ((i, w) ∷ m) = ground (arith, find-remove k j m)

  abbrev pub is_some : Option V → Bool
  is_some none = false
  is_some (some v) = true

  pub contains_key-find : (k : ℕ) (m : List (ℕ × V)) → contains_key k m ≡ is_some (find k m)
  unfolding find contains_key
  contains_key-find k [] = refl
  contains_key-find k ((i, w) ∷ m) = ground (arith, contains_key-find k m)

  pub contains_key-put :
      (k j : ℕ) (v : V) (m : List (ℕ × V))
      → contains_key j (put k v m) ≡ (if k == j then true else contains_key j m)
  unfolding contains_key put
  contains_key-put k j v [] = refl
  contains_key-put k j v ((i, w) ∷ m) = ground (arith, contains_key-put k j v m)

  pub find-contains_key :
      (k : ℕ) (m : List (ℕ × V)) {v : V} → find k m ≡ some v → contains_key k m ≡ true
  find-contains_key k m e = rw (contains_key-find k m, e)

  pub length-remove : (k : ℕ) (m : List (ℕ × V)) → length (remove k m) ≤ length m
  unfolding remove
  length-remove k [] = omega arith
  length-remove k ((i, w) ∷ m) = ground (arith, length-remove k m)

  pub length-put : (k : ℕ) (v : V) (m : List (ℕ × V)) → length (put k v m) ≤ length m + 1
  unfolding put
  length-put k v [] = omega arith
  length-put k v ((i, w) ∷ m) = ground (arith, length-put k v m)

  pub length-put_present :
      (k : ℕ) (v : V) (m : List (ℕ × V)) → contains_key k m ≡ true → length (put k v m) ≡ length m
  unfolding put contains_key
  length-put_present k v [] h = cc
  length-put_present k v ((i, w) ∷ m) h = elim (Bool-cases (i == k)) [
    | inl same ↦ rw same
    | inr other ↦ rw other (ap suc (length-put_present k v m (rw other at h)))
  ]

  pub contains_key-remove :
      (k j : ℕ) (m : List (ℕ × V))
      → contains_key j (remove k m) ≡ (if k == j then false else contains_key j m)
  unfolding contains_key remove
  contains_key-remove k j [] = ground arith
  contains_key-remove k j ((i, w) ∷ m) = ground (arith, contains_key-remove k j m)
