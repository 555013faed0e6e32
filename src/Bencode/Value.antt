-- ===== src/Bencode/Value.antt =====
-- src/bencode/value.rs: bencoded values and the accessors on them. A `BTreeMap` is the list of its
-- entries in the order of its keys, which are compared byte by byte.
pub mod Order
use moviehouse.Prelude.{
  ℕ, suc, ℤ, List, [], ◌∷◌, Bool, true, false, Option, none, some, ltb, ◌==◌, if◌then◌else◌,
  eq_bytes, is_utf8, ascii,
}
use Prim.Native.String.{String}

mutual
  pub data BValue : Type 0 where
    int : ℤ → BValue
    bytes : List ℕ → BValue
    list : Items → BValue
    dict : Entries → BValue

  -- `Vec<BValue>`
  pub data Items : Type 0 where
    no_items : Items
    item : BValue → Items → Items

  -- `BTreeMap<Vec<u8>, BValue>`
  pub data Entries : Type 0 where
    no_entries : Entries
    entry : List ℕ → BValue → Entries → Entries

-- `Ord` of `Vec<u8>`
abbrev pub lt_bytes : List ℕ → List ℕ → Bool
lt_bytes [] [] = false
lt_bytes [] (b ∷ bs) = true
lt_bytes (a ∷ as') [] = false
lt_bytes (a ∷ as') (b ∷ bs) =
    let later = lt_bytes as' bs in if ltb a b then true else if a == b then later else false

-- `map.insert(key, value)`
unfoldable pub insert : List ℕ → BValue → Entries → Entries
insert k v no_entries = entry k v no_entries
insert k v (entry j w m) =
    let later = insert k v m in
    if lt_bytes k j
    then entry k v (entry j w m)
    else if eq_bytes k j
    then entry k v m
    else entry j w later

-- `map.get(key)`
unfoldable pub lookup : List ℕ → Entries → Option BValue
lookup k no_entries = none
lookup k (entry j v m) = if eq_bytes j k then some v else lookup k m

-- `map.len()`
abbrev pub size : Entries → ℕ
size no_entries = 0
size (entry _ _ m) = suc (size m)

unfoldable pub as_int : BValue → Option ℤ
as_int (int n) = some n
as_int _ = none

unfoldable pub as_bytes : BValue → Option (List ℕ)
as_bytes (bytes b) = some b
as_bytes _ = none

unfoldable pub as_str : BValue → Option (List ℕ)
unfolding as_bytes
as_str v = elim (as_bytes v) [ none ↦ none | some b ↦ if is_utf8 b then some b else none ]

unfoldable pub as_list : BValue → Option Items
as_list (list l) = some l
as_list _ = none

unfoldable pub as_dict : BValue → Option Entries
as_dict (dict d) = some d
as_dict _ = none

unfoldable pub get : BValue → List ℕ → Option BValue
unfolding as_dict lookup
get v key = elim (as_dict v) [ none ↦ none | some d ↦ lookup key d ]

unfoldable pub get_str : BValue → String → Option BValue
unfolding get
get_str v key = get v (ascii key)
