-- ===== src/Bencode/Value/Order.antt =====
-- src/bencode/value.rs: the order of a `BTreeMap`'s keys, and what `insert` and `lookup` make of it.
use moviehouse.Prelude.{
  ℕ, ◌+◌, ◌≤◌, ◌≡◌, refl, ap, arith, List, [], ◌∷◌, true, false, some, if◌then◌else◌, eq_bytes,
  eq_bytes→eq, Bool-cases, inl, inr,
}
use moviehouse.Bencode.Value.{BValue, Entries, no_entries, entry, lt_bytes, insert, lookup, size}

pub lt_bytes_irrefl : (a : List ℕ) → lt_bytes a a ≡ false
lt_bytes_irrefl [] = refl
lt_bytes_irrefl (x ∷ a) = ground (arith, lt_bytes_irrefl a)

pub lt_bytes_asymm : (a b : List ℕ) → lt_bytes a b ≡ true → lt_bytes b a ≡ false
lt_bytes_asymm [] [] h = refl
lt_bytes_asymm [] (y ∷ b) h = refl
lt_bytes_asymm (x ∷ a) [] h = cc
lt_bytes_asymm (x ∷ a) (y ∷ b) h = ground (arith, lt_bytes_asymm a b)

pub lt_bytes_trans :
    (a b c : List ℕ) → lt_bytes a b ≡ true → lt_bytes b c ≡ true → lt_bytes a c ≡ true
lt_bytes_trans [] [] c h k = cc
lt_bytes_trans [] (y ∷ b) [] h k = cc
lt_bytes_trans [] (y ∷ b) (z ∷ c) h k = refl
lt_bytes_trans (x ∷ a) [] c h k = cc
lt_bytes_trans (x ∷ a) (y ∷ b) [] h k = cc
lt_bytes_trans (x ∷ a) (y ∷ b) (z ∷ c) h k = ground (arith, lt_bytes_trans a b c)

-- Two keys of which neither is smaller are equal.
pub lt_bytes_total :
    (a b : List ℕ) → lt_bytes a b ≡ false → eq_bytes a b ≡ false → lt_bytes b a ≡ true
lt_bytes_total [] [] h k = cc
lt_bytes_total [] (y ∷ b) h k = cc
lt_bytes_total (x ∷ a) [] h k = refl
lt_bytes_total (x ∷ a) (y ∷ b) h k = ground (arith, lt_bytes_total a b)

pub lt_bytes→ne : (a b : List ℕ) → lt_bytes a b ≡ true → eq_bytes b a ≡ false
lt_bytes→ne [] [] h = cc
lt_bytes→ne [] (y ∷ b) h = refl
lt_bytes→ne (x ∷ a) [] h = cc
lt_bytes→ne (x ∷ a) (y ∷ b) h = ground (arith, lt_bytes→ne a b)

-- Every key of the map is greater than `k`.
abbrev pub AllAbove : List ℕ → Entries → Type 0
AllAbove k no_entries = Unit
AllAbove k (entry j v m) = (lt_bytes k j ≡ true) × AllAbove k m

-- The keys ascend.
abbrev pub IsSorted : Entries → Type 0
IsSorted no_entries = Unit
IsSorted (entry k v m) = AllAbove k m × IsSorted m

-- Every key of the first map is smaller than every key of the second.
abbrev pub AllBelow : Entries → Entries → Type 0
AllBelow no_entries m = Unit
AllBelow (entry k v a) m = AllAbove k m × AllBelow a m

abbrev pub join : Entries → Entries → Entries
join no_entries m = m
join (entry k v a) m = entry k v (join a m)

pub join_nil : (a : Entries) → join a no_entries ≡ a
join_nil no_entries = refl
join_nil (entry k v a) = ap (entry k v) (join_nil a)

pub join_assoc : (a b c : Entries) → join (join a b) c ≡ join a (join b c)
join_assoc no_entries b c = refl
join_assoc (entry k v a) b c = ap (entry k v) (join_assoc a b c)

pub size-join : (a b : Entries) → size (join a b) ≡ size a + size b
size-join no_entries b = omega arith
size-join (entry k v a) b = omega (arith, size-join a b)

-- A key greater than all is put last.
pub insert-last :
    (k : List ℕ) (v : BValue) (a m : Entries)
    → AllBelow a (entry k v m)
    → insert k v a ≡ join a (entry k v no_entries)
unfolding insert
insert-last k v no_entries m h = refl
insert-last k v (entry j w a) m h =
    rw (lt_bytes_asymm j k h.0.0, lt_bytes→ne j k h.0.0) (ap (entry j w) (insert-last k v a m h.1))

AllBelow-last :
    (k : List ℕ) (v : BValue) (a m : Entries)
    → AllBelow a (entry k v m)
    → AllAbove k m
    → AllBelow (join a (entry k v no_entries)) m
AllBelow-last k v no_entries m h above = (above, tt)
AllBelow-last k v (entry j w a) m h above = (h.0.1, AllBelow-last k v a m h.1 above)

pub insert-AllBelow :
    (k : List ℕ) (v : BValue) (a m : Entries)
    → AllBelow a (entry k v m)
    → AllAbove k m
    → AllBelow (insert k v a) m
insert-AllBelow k v a m h above = rw (insert-last k v a m h) (AllBelow-last k v a m h above)

AllAbove-trans : (j k : List ℕ) (m : Entries) → lt_bytes j k ≡ true → AllAbove k m → AllAbove j m
AllAbove-trans j k no_entries h above = tt
AllAbove-trans j k (entry i v m) h above =
    (lt_bytes_trans j k i h above.0, AllAbove-trans j k m h above.1)

insert-AllAbove :
    (j k : List ℕ) (v : BValue) (m : Entries)
    → lt_bytes j k ≡ true
    → AllAbove j m
    → AllAbove j (insert k v m)
unfolding insert
insert-AllAbove j k v no_entries h above = (h, tt)
insert-AllAbove j k v (entry i w m) h above = elim (Bool-cases (lt_bytes k i)) [
  | inl e ↦ rw e (h, above)
  | inr e ↦ rw e (elim (Bool-cases (eq_bytes k i)) [
    | inl q ↦ rw q (h, above.1)
    | inr q ↦ rw q (above.0, insert-AllAbove j k v m h above.1)
  ])
]

-- A map stays sorted.
pub insert-IsSorted : (k : List ℕ) (v : BValue) (m : Entries) → IsSorted m → IsSorted (insert k v m)
unfolding insert
insert-IsSorted k v no_entries h = (tt, tt)
insert-IsSorted k v (entry i w m) h = elim (Bool-cases (lt_bytes k i)) [
  | inl e ↦ rw e ((e, AllAbove-trans k i m e h.0), h)
  | inr e ↦ rw e (elim (Bool-cases (eq_bytes k i)) [
    | inl q ↦ rw q (rw (eq_bytes→eq k i q) h.0, h.1)
    | inr q ↦ rw q (insert-AllAbove i k v m (lt_bytes_total k i e q) h.0, insert-IsSorted k v m h.1)
  ])
]

pub size-insert : (k : List ℕ) (v : BValue) (m : Entries) → size (insert k v m) ≤ size m + 1
unfolding insert
size-insert k v no_entries = omega arith
size-insert k v (entry i w m) = ground (arith, size-insert k v m)

-- `get` after `insert`: the new value at its key, and no change at another.
pub lookup-insert :
    (j k : List ℕ) (v : BValue) (m : Entries)
    → lookup j (insert k v m) ≡ (if eq_bytes k j then some v else lookup j m)
unfolding lookup insert
lookup-insert j k v no_entries = refl
lookup-insert j k v (entry i w m) = elim (Bool-cases (lt_bytes k i)) [
  | inl e ↦ rw e
  | inr e ↦ rw e (elim (Bool-cases (eq_bytes k i)) [
    | inl q ↦ rw q (rw (eq_bytes→eq k i q) (ground arith))
    | inr q ↦ rw q (elim (Bool-cases (eq_bytes i j)) [
      | inl r ↦ let other : eq_bytes k j ≡ false = rw (eq_bytes→eq i j r) at q in rw (r, other)
      | inr r ↦ rw (r, lookup-insert j k v m)
    ])
  ])
]
