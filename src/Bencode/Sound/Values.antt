-- ===== src/Bencode/Sound/Values.antt =====
-- src/bencode/decode.rs: every value that is decoded is one of the program's types within the limits,
-- and no input makes the decoder panic or run out of fuel.
use moviehouse.Prelude.{
  ℕ, zero, suc, ◌+◌, ◌-◌, ◌*◌, ◌≤◌, ◌<◌, ◌≡◌, refl, arith, ap, List, length, leb, ◌==◌, Bool-cases,
  inl, inr, eq_bytes, false,
}
use moviehouse.Bencode.Value.{
  BValue, Items, Entries, int, bytes, list, dict, no_entries, entry, insert, size, lt_bytes,
}
use moviehouse.Bencode.Value.Order.{IsSorted, insert-IsSorted, size-insert}
use moviehouse.Bencode.Decimal.{is_digit}
use moviehouse.Bencode.RoundTrip.Brackets.{Fits, FitsItems, FitsEntries, count}
use moviehouse.Bencode.Decode.{
  Decoder, Step, invalid_byte, decode_list, decode_dict, nested, key_bytes, decode_value,
  decode_items, decode_entries, max_depth, max_elements,
}
use moviehouse.Bencode.Sound.{
  Moved, Runs, moved, stopped, Yields, value, failed, Moved-trans, Runs-bind, Yields-bind,
  Runs-after, Runs-map, Runs-if,
}
use moviehouse.Bencode.Sound.Steps.{
  At, peek-Yields, expect-Runs, decode_int-Runs, decode_bytes-Runs,
}

Moved-weaken : {k j : ℕ} {d d' : Decoder} → Moved k d d' → j ≤ k → Moved j d d'
Moved-weaken m le = record {
  same_input = m.same_input;
  same_depth = m.same_depth;
  forward = omega (arith, m.forward);
  inside = m.inside;
}

module _ {P : Items → Type 0} {Q : BValue → Type 0} where
  decode_list-Runs :
      (items : Decoder → Step Items) (d : Decoder)
      → ((d' : Decoder) → Moved 1 d d' → Runs 0 d' P (items d'))
      → ((vs : Items) → P vs → Q (list vs))
      → Runs 1 d Q (decode_list items d)
  unfolding decode_list
  decode_list-Runs items d inner q = Runs-bind _ (expect-Runs 108 d) λ _ d₁ m₁ _.
      Runs-bind _ (inner d₁ m₁) λ vs d₂ m₂ p. Runs-bind _ (expect-Runs 101 d₂) λ _ d₃ m₃ _.
        moved (Moved-weaken (Moved-trans m₁ (Moved-trans m₂ m₃)) (omega arith)) (q vs p)

module _ {P : Entries → Type 0} {Q : BValue → Type 0} where
  decode_dict-Runs :
      (entries : Decoder → Step Entries) (d : Decoder)
      → ((d' : Decoder) → Moved 1 d d' → Runs 0 d' P (entries d'))
      → ((m : Entries) → P m → Q (dict m))
      → Runs 1 d Q (decode_dict entries d)
  unfolding decode_dict
  decode_dict-Runs entries d inner q = Runs-bind _ (expect-Runs 100 d) λ _ d₁ m₁ _.
      Runs-bind _ (inner d₁ m₁) λ vs d₂ m₂ p. Runs-bind _ (expect-Runs 101 d₂) λ _ d₃ m₃ _.
        moved (Moved-weaken (Moved-trans m₁ (Moved-trans m₂ m₃)) (omega arith)) (q vs p)

module _ {Q : BValue → Type 0} where
  nested-Runs :
      (inner : Decoder → Step BValue) (d : Decoder)
      → (d.depth < max_depth
          → Runs 1 (record d { depth = d.depth + 1 }) Q (inner (record d { depth = d.depth + 1 })))
      → Runs 1 d Q (nested inner d)
  unfolding nested
  nested-Runs inner d h =
      Runs-if (leb max_depth d.depth) (λ _. stopped (λ q. cc))
        λ shallow. Runs-bind _ (h (ground arith)) λ v d' m q.
          moved
            (record {
              same_input = m.same_input;
              same_depth = omega (arith, m.same_depth);
              forward = m.forward;
              inside = m.inside;
            })
            q

key_bytes-Yields :
    (d : Decoder) (k : BValue) (b : ℕ)
    → At d b
    → Yields (λ (key : List ℕ). Unit {0}) (key_bytes d k)
unfolding key_bytes
key_bytes-Yields d (bytes key) b at = value tt
key_bytes-Yields d (int n) b at =
    rw (at.byte, key_bytes) (failed {e = invalid_byte b d.pos} (λ q. cc))
key_bytes-Yields d (list vs) b at =
    rw (at.byte, key_bytes) (failed {e = invalid_byte b d.pos} (λ q. cc))
key_bytes-Yields d (dict m) b at =
    rw (at.byte, key_bytes) (failed {e = invalid_byte b d.pos} (λ q. cc))

insert-FitsEntries :
    (l : ℕ) (k : List ℕ) (v : BValue) (m : Entries)
    → Fits l v
    → FitsEntries l m
    → FitsEntries l (insert k v m)
unfolding insert Fits
insert-FitsEntries l k v no_entries h hm = (h, tt)
insert-FitsEntries l k v (entry j w m) h hm = elim (Bool-cases (lt_bytes k j)) [
  | inl e ↦ rw e (h, hm)
  | inr e ↦ rw e (elim (Bool-cases (eq_bytes k j)) [
    | inl q ↦ rw q (h, hm.1)
    | inr q ↦ rw q (hm.0, insert-FitsEntries l k v m h hm.1)
  ])
]

still : (d : Decoder) → d.pos < length d.input → Moved 0 d d
still d h = record {
  same_input = refl;
  same_depth = refl;
  forward = omega arith;
  inside = omega arith;
}

grows :
    (k : List ℕ) (v : BValue) (m : Entries)
    → leb max_elements (size m) ≡ false
    → size (insert k v m) ≤ max_elements
grows k v m h = ground (arith, size-insert k v m)

-- What is left to read.
abbrev left : Decoder → ℕ
left d = length d.input - d.pos

mutual
  unfolding decode_value Fits

  pub value-Runs :
      (f l : ℕ) (d : Decoder)
      → l + d.depth ≡ max_depth
      → 2 * left d < f
      → Runs 1 d (Fits l) (decode_value f d)
  value-Runs zero l d deep fuel = absurd (omega arith)
  value-Runs (suc f) l d deep fuel = Yields-bind _ (peek-Yields d) λ b at.
      Runs-if (b == 105) (λ _. Runs-map (decode_int-Runs d) (λ v p. p l))
        λ _.
          Runs-if (b == 108)
            (λ _. nested-Runs _ d λ shallow.
              decode_list-Runs _ (record d { depth = d.depth + 1 })
                (λ d' m.
                  items-Run f (l - 1) 0 d' (omega (arith, m.same_depth, shallow)) (omega arith)
                    (omega (arith, m.forward, ap length m.same_input, at.inside)))
                (λ vs p. (omega arith, omega (arith, p.1), p.0)))
            λ _.
              Runs-if (b == 100)
                (λ _. nested-Runs _ d λ shallow.
                  decode_dict-Runs _ (record d { depth = d.depth + 1 })
                    (λ d' m.
                      entries-Run f (l - 1) no_entries d' (omega (arith, m.same_depth, shallow))
                        (omega (arith, m.forward, ap length m.same_input, at.inside))
                        (tt, tt, omega arith))
                    (λ vs p. (omega arith, p.2, p.1, p.0)))
                λ _.
                  Runs-if (is_digit b) (λ _. Runs-map (decode_bytes-Runs d) (λ v p. p l))
                    λ _. stopped (λ q. cc)

  items-Run :
      (f l n : ℕ) (d : Decoder)
      → l + d.depth ≡ max_depth
      → n ≤ max_elements
      → 2 * left d + 1 < f
      → Runs 0 d (λ vs. FitsItems l vs × (n + count vs ≤ max_elements)) (decode_items f n d)
  items-Run zero l n d deep room fuel = absurd (omega arith)
  items-Run (suc f) l n d deep room fuel = Yields-bind _ (peek-Yields d) λ b at.
      Runs-if (b == 101) (λ _. moved (still d at.inside) (tt, omega arith))
        λ _.
          Runs-if (leb max_elements n) (λ _. stopped (λ q. cc))
            λ more. Runs-bind _ (value-Runs f l d deep (omega arith)) λ v d₁ m₁ fits.
              Runs-bind _
                (items-Run f l (n + 1) d₁ (omega (arith, m₁.same_depth)) (ground arith)
                  (omega (arith, m₁.forward, ap length m₁.same_input, at.inside)))
                λ vs d₂ m₂ p.
                  moved (Moved-weaken (Moved-trans m₁ m₂) (omega arith))
                    ((fits, p.0), omega (arith, p.1))

  entries-Run :
      (f l : ℕ) (acc : Entries) (d : Decoder)
      → l + d.depth ≡ max_depth
      → 2 * left d + 1 < f
      → FitsEntries l acc × IsSorted acc × (size acc ≤ max_elements)
      → Runs 0 d
          (λ m. FitsEntries l m × IsSorted m × (size m ≤ max_elements))
          (decode_entries f acc d)
  entries-Run zero l acc d deep fuel h = absurd (omega arith)
  entries-Run (suc f) l acc d deep fuel h = Yields-bind _ (peek-Yields d) λ b at.
      Runs-if (b == 101) (λ _. moved (still d at.inside) h)
        λ _.
          Runs-if (leb max_elements (size acc)) (λ _. stopped (λ q. cc))
            λ more. Runs-bind _ (value-Runs f l d deep (omega arith)) λ k d₁ m₁ _.
              Yields-bind _ (key_bytes-Yields d k b at) λ key _.
                Runs-bind _
                  (value-Runs f l d₁ (omega (arith, m₁.same_depth))
                    (omega (arith, m₁.forward, ap length m₁.same_input, at.inside)))
                  λ v d₂ m₂ fits.
                    let m = Moved-trans m₁ m₂ in
                    Runs-after m (omega arith) (
                      entries-Run f l (insert key v acc) d₂ (omega (arith, m.same_depth))
                        (omega (arith, m.forward, ap length m.same_input, at.inside))
                        (
                          insert-FitsEntries l key v acc fits h.0,
                          insert-IsSorted key v acc h.1,
                          grows key v acc more,
                        ))
