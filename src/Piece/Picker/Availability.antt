-- ===== src/Piece/Picker/Availability.antt =====
-- src/piece/picker.rs: how many peers have a piece, as they come and go.
use moviehouse.Prelude.{
  ℕ, zero, suc, ◌+◌, ◌-◌, ◌≤◌, ◌<◌, ◌≡◌, refl, sym, ap, ◌∙◌, arith, List, [], ◌∷◌, ◌++◌, true,
  false, ◌&&◌, ltb, ◌==◌, ==_iff, if◌then◌else◌, inl, inr, Bool-cases, set, get_or, length,
  length-set, same_items, min,
}
use moviehouse.Piece.Bitfield.{Bitfield, holds, indices_below, set_indices}
use moviehouse.Piece.Bitfield.Valid.{get_or-set}
use moviehouse.Piece.Picker.{
  PiecePicker, u16_max, more_available, less_available, each_within, peer_has_bitfield,
  peer_disconnected,
}
use moviehouse.Piece.Picker.Rarest.{avail_of}

each_within-append :
    (n : ℕ) (f : ℕ → List ℕ → List ℕ) (is js av : List ℕ)
    → each_within n f (is ++ js) av ≡ each_within n f js (each_within n f is av)
unfolding each_within
each_within-append n f [] js av = refl
each_within-append n f (i ∷ is) js av =
    each_within-append n f is js (if ltb i n then f i av else av)

-- A loop that changes the count of each piece of a bitfield by `step`.
module _ (step : ℕ → ℕ) (n : ℕ) (bf : Bitfield) where
  abbrev change : ℕ → List ℕ → List ℕ
  change i av = set av i (step (get_or av i 0))

  abbrev changed : ℕ → List ℕ → List ℕ
  changed k av = each_within n change (indices_below bf true k) av

  changed-suc :
      (k : ℕ) (av : List ℕ)
      → changed (suc k) av
        ≡ (if holds bf k && ltb k n then change k (changed k av) else changed k av)
  unfolding indices_below
  changed-suc k av = elim (Bool-cases (holds bf k)) [
    | inl on ↦ rw on (
        each_within-append n change (indices_below bf true k) (k ∷ []) av
        ∙ (unfold each_within in ground arith))
    | inr off ↦ rw off
  ]

  length-changed : (k : ℕ) (av : List ℕ) → length (changed k av) ≡ length av
  length-changed zero av = (unfold indices_below each_within in refl)
  length-changed (suc k) av = ground (
    arith,
    changed-suc k av,
    length-changed k av,
    length-set (changed k av) k (step (get_or (changed k av) k 0)),
  )

  get_or-changed :
      (k : ℕ) (av : List ℕ) (i : ℕ)
      → n ≤ length av
      → get_or (changed k av) i 0
        ≡ (if ltb i k && (holds bf i && ltb i n) then step (get_or av i 0) else get_or av i 0)
  get_or-changed zero av i h = (unfold indices_below each_within in ground arith)
  get_or-changed (suc k) av i h = rw (changed-suc k av) (elim (Bool-cases (holds bf k && ltb k n)) [
    | inl on ↦
        let within : k < length (changed k av) = ground (arith, length-changed k av) in
        let write = get_or-set (changed k av) k i (step (get_or (changed k av) k 0)) within in
        elim (Bool-cases (k == i)) [
          | inl same ↦
              let at : k ≡ i = (==_iff k i).0 same in
              let write_here =
                get_or-set (changed k av) k k (step (get_or (changed k av) k 0)) within in
              rw on (rw (← at) (ground (arith, write_here, get_or-changed k av k h)))
          | inr other ↦ ground (arith, write, get_or-changed k av i h)
        ]
    | inr off ↦ elim (Bool-cases (k == i)) [
      | inl same ↦
          let at : k ≡ i = (==_iff k i).0 same in
          let off' : (holds bf i && ltb i n) ≡ false = rw at at off in
          ground (arith, get_or-changed k av i h)
      | inr other ↦ ground (arith, get_or-changed k av i h)
    ]
  ])

-- The loops of the picker are such loops.
module _ (p : PiecePicker) (bf : Bitfield) (sized : length p.availability ≡ p.num_pieces)
    (i : ℕ) where
  avail_of-peer_has_bitfield : avail_of (peer_has_bitfield p bf) i ≡ (
      if ltb i bf.num_pieces && (holds bf i && ltb i p.num_pieces)
      then min u16_max (avail_of p i + 1)
      else avail_of p i)
  unfolding peer_has_bitfield set_indices more_available
  avail_of-peer_has_bitfield =
      get_or-changed (λ a. min u16_max (a + 1)) p.num_pieces bf bf.num_pieces p.availability i
        (omega (arith, sized))

  avail_of-peer_disconnected : avail_of (peer_disconnected p bf) i ≡ (
      if ltb i bf.num_pieces && (holds bf i && ltb i p.num_pieces)
      then avail_of p i - 1
      else avail_of p i)
  unfolding peer_disconnected set_indices less_available
  avail_of-peer_disconnected =
      get_or-changed (λ a. a - 1) p.num_pieces bf bf.num_pieces p.availability i
        (omega (arith, sized))

  length-peer_has_bitfield : length (peer_has_bitfield p bf).availability ≡ p.num_pieces
  unfolding peer_has_bitfield set_indices more_available
  length-peer_has_bitfield =
      length-changed (λ a. min u16_max (a + 1)) p.num_pieces bf bf.num_pieces p.availability ∙ sized

  length-peer_disconnected : length (peer_disconnected p bf).availability ≡ p.num_pieces
  unfolding peer_disconnected set_indices less_available
  length-peer_disconnected =
      length-changed (λ a. a - 1) p.num_pieces bf bf.num_pieces p.availability ∙ sized

-- A peer that comes and goes.
module _ (p : PiecePicker) (bf : Bitfield) (sized : length p.availability ≡ p.num_pieces)
    (below : (i : ℕ) → avail_of p i < u16_max) where
  size_there : length (peer_has_bitfield p bf).availability ≡ (peer_has_bitfield p bf).num_pieces
  size_there = length-peer_has_bitfield p bf sized 0 ∙ (unfold peer_has_bitfield in refl)

  same_num_pieces : (peer_has_bitfield p bf).num_pieces ≡ p.num_pieces
  unfolding peer_has_bitfield
  same_num_pieces = refl

  availability-back : (peer_disconnected (peer_has_bitfield p bf) bf).availability ≡ p.availability
  availability-back =
      let p₁ = peer_has_bitfield p bf in
      same_items (peer_disconnected p₁ bf).availability p.availability
        (length-peer_disconnected p₁ bf size_there 0 ∙ (same_num_pieces ∙ sym sized))
        (λ k lt. ground (
          arith,
          avail_of-peer_disconnected p₁ bf size_there k,
          avail_of-peer_has_bitfield p bf sized k,
          same_num_pieces,
          below k,
        ))

-- A peer that comes with a bitfield and goes with it leaves the picker as it was, if no count was at
-- its limit. There is a count for each piece.
pub peer_disconnected-peer_has_bitfield :
    (p : PiecePicker) (bf : Bitfield)
    → length p.availability ≡ p.num_pieces
    → ((i : ℕ) → avail_of p i < u16_max)
    → peer_disconnected (peer_has_bitfield p bf) bf ≡ p
unfolding peer_disconnected peer_has_bitfield
peer_disconnected-peer_has_bitfield p bf sized below =
    ap (λ av. record p { availability = av }) (availability-back p bf sized below)
