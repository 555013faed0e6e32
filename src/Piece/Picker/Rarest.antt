-- ===== src/Piece/Picker/Rarest.antt =====
-- src/piece/picker.rs: `pick_piece`, the choice of a new piece.
use moviehouse.Prelude.{
  ℕ, zero, suc, ◌+◌, ◌%◌, ◌≤◌, ◌<◌, ◌≡◌, refl, arith, true, false, Option, none, some, ltb, ◌==◌,
  get_or, le_or_lt, inl, inr, Bool-cases,
}
use moviehouse.Piece.Bitfield.{Bitfield}
use moviehouse.Piece.Picker.{
  PiecePicker, Best, u16_max, is_candidate, consider, best_below, pick_piece,
}

-- The availability of a piece.
abbrev pub avail_of : PiecePicker → ℕ → ℕ
avail_of p i = get_or p.availability i 0

-- The availabilities are numbers of the type `u16`.
abbrev pub Countable : PiecePicker → Type 0
Countable p = (i : ℕ) → avail_of p i ≤ u16_max

abbrev pub NoneBelow : PiecePicker → Bitfield → ℕ → Type 0
NoneBelow p bf n = (i : ℕ) → i < n → is_candidate p bf i ≡ false

abbrev pub RarestBelow : PiecePicker → Bitfield → ℕ → ℕ → Type 0
RarestBelow p bf n j = (i : ℕ) → i < n → is_candidate p bf i ≡ true → avail_of p j ≤ avail_of p i

-- What the search has found among the pieces below `n`.
data Tracks (p : PiecePicker) (bf : Bitfield) (n : ℕ) : Best → Type 0 where
  untouched :
      NoneBelow p bf n
      → Tracks p bf n (record { best_idx = none; best_avail = u16_max; best_count = 0 })
  leading :
      (j avail count : ℕ)
      → j < n
      → is_candidate p bf j ≡ true
      → avail_of p j ≡ avail
      → RarestBelow p bf n j
      → Tracks p bf n (record { best_idx = some j; best_avail = avail; best_count = count })

module _ (p : PiecePicker) (bf : Bitfield) (n : ℕ) where
  none_further : is_candidate p bf n ≡ false → NoneBelow p bf n → NoneBelow p bf (suc n)
  none_further off h i lt = elim (le_or_lt n i) [
    | inl at ↦ let e : n ≡ i = omega arith in rw e at off
    | inr before ↦ h i before
  ]

  -- A piece as rare as all those before it, and as the next one.
  rarest_further :
      (j : ℕ)
      → RarestBelow p bf n j
      → (is_candidate p bf n ≡ true → avail_of p j ≤ avail_of p n)
      → RarestBelow p bf (suc n) j
  rarest_further j h last i lt c = elim (le_or_lt n i) [
    | inl at ↦ let e : n ≡ i = omega arith in (rw e at last) c
    | inr before ↦ h i before c
  ]

  Tracks-skip : {b : Best} → is_candidate p bf n ≡ false → Tracks p bf n b → Tracks p bf (suc n) b
  Tracks-skip off (untouched h) = untouched (none_further off h)
  Tracks-skip off (leading j a c lt cand e h) =
      leading j a c (omega arith) cand e (rarest_further j h (λ on. cc))

  -- The new piece takes the lead.
  takes :
      (avail count : ℕ)
      → is_candidate p bf n ≡ true
      → avail_of p n ≡ avail
      → ((i : ℕ) → i < n → is_candidate p bf i ≡ true → avail ≤ avail_of p i)
      → Tracks p bf (suc n) (record { best_idx = some n; best_avail = avail; best_count = count })
  takes avail count cand e h =
      leading n avail count (omega arith) cand e
        (rarest_further n (λ i lt c. omega (arith, h i lt c)) (λ c. omega arith))

  Tracks-consider :
      (rnd : ℕ → ℕ) {b : Best}
      → Countable p
      → is_candidate p bf n ≡ true
      → Tracks p bf n b
      → Tracks p bf (suc n) (consider rnd p n b)
  unfolding consider
  Tracks-consider rnd bounded cand (untouched h) = elim (le_or_lt u16_max (avail_of p n)) [
    | inr less ↦
        let e : ltb (avail_of p n) u16_max ≡ true = ground arith in
        rw e (takes (avail_of p n) 1 cand refl (λ i lt c. absurd (cc (c, h i lt))))
    | inl most ↦
        let e : avail_of p n ≡ u16_max = omega (arith, bounded n) in
        let drawn : rnd n % 1 == 0 ≡ true = ground arith in
        rw (e, drawn) (takes u16_max 1 cand e (λ i lt c. absurd (cc (c, h i lt))))
  ]
  Tracks-consider rnd bounded cand (leading j a c lt candj e h) = elim (le_or_lt a (avail_of p n)) [
    | inr less ↦
        let q : ltb (avail_of p n) a ≡ true = ground arith in
        rw q (takes (avail_of p n) 1 cand refl (λ i lt c. omega (arith, h i lt c)))
    | inl most ↦
        let q : ltb (avail_of p n) a ≡ false = ground arith in
        rw q (elim (Bool-cases (avail_of p n == a)) [
          | inl same ↦ rw same (elim (Bool-cases (rnd n % (c + 1) == 0)) [
            | inl drawn ↦
                rw drawn (takes a (c + 1) cand (ground arith) (λ i lt c. omega (arith, h i lt c)))
            | inr kept ↦
                rw kept (
                  leading j a (c + 1) (omega arith) candj e (rarest_further j h (λ c. omega arith)))
          ])
          | inr other ↦
              rw other (leading j a c (omega arith) candj e (rarest_further j h (λ c. omega arith)))
        ])
  ]

best_below-Tracks :
    (rnd : ℕ → ℕ) (p : PiecePicker) (bf : Bitfield) (n : ℕ)
    → Countable p
    → Tracks p bf n (best_below rnd p bf n)
unfolding best_below
best_below-Tracks rnd p bf zero bounded = untouched (λ i lt. absurd (omega arith))
best_below-Tracks rnd p bf (suc n) bounded = elim (Bool-cases (is_candidate p bf n)) [
  | inl on ↦ rw on (Tracks-consider p bf n rnd bounded on (best_below-Tracks rnd p bf n bounded))
  | inr off ↦ rw off (Tracks-skip p bf n off (best_below-Tracks rnd p bf n bounded))
]

-- What a choice of a piece should be.
pub data Picks (p : PiecePicker) (bf : Bitfield) : Option ℕ → Type 0 where
  nothing : NoneBelow p bf p.num_pieces → Picks p bf none
  rarest :
      (j : ℕ)
      → j < p.num_pieces
      → is_candidate p bf j ≡ true
      → RarestBelow p bf p.num_pieces j
      → Picks p bf (some j)

Tracks-Picks :
    (p : PiecePicker) (bf : Bitfield) {b : Best}
    → Tracks p bf p.num_pieces b
    → Picks p bf b.best_idx
Tracks-Picks p bf (untouched h) = nothing h
Tracks-Picks p bf (leading j a c lt cand e h) = rarest j lt cand h

-- Whatever is drawn, and in every mode of the picker, `random_first` included, `pick_piece` picks a
-- piece that the peer has and that is neither owned nor in progress, of the lowest availability of
-- all such pieces, or finds none because there is none. The availabilities fit 16 bits.
pub pick_piece-Picks :
    (rnd : ℕ → ℕ) (p : PiecePicker) (bf : Bitfield) → Countable p → Picks p bf (pick_piece rnd p bf)
unfolding pick_piece
pick_piece-Picks rnd p bf bounded =
    Tracks-Picks p bf (best_below-Tracks rnd p bf p.num_pieces bounded)
