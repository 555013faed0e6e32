-- ===== src/Piece/Picker/Asking.antt =====
-- src/piece/picker.rs: `pick_block`, the choice of a block.
use moviehouse.Prelude.{
  ℕ, ◌+◌, ◌*◌, ◌<◌, ◌≡◌, sym, ◌∙◌, arith, List, true, Option, none, some, inl, inr, Option-cases,
  set,
}
use moviehouse.Prelude.Assoc.{find, put, find-put, contains_key, find-contains_key}
use moviehouse.Peer.Message.{block_size}
use moviehouse.Piece.Bitfield.{Bitfield, holds}
use moviehouse.Piece.Progress
use moviehouse.Piece.Progress.{
  PieceProgress, block_length, blocks_of, flag, is_free, assign_next_block,
}
use moviehouse.Piece.Progress.Valid.{flag-replicate, new-IsValid, flag-set}
use moviehouse.Piece.Picker.{
  PiecePicker, BlockRequest, assigned, more_active, candidates, sort_by_active, start_piece,
  pick_piece, pick_block, check_mode, actual_piece_length, is_candidate,
}
use moviehouse.Piece.Picker.Candidates.{visits, listed-sort, listed-candidates}
use moviehouse.Piece.Picker.Rarest.{
  Countable, NoneBelow, RarestBelow, Picks, nothing, rarest, pick_piece-Picks,
}
use moviehouse.Piece.Picker.Continue.{
  AllValid, NoneFree, listed, at_cursor, search_cases, Continues, asks, stuck,
  continue_piece-Continues,
}

in_progress-check_mode : (p : PiecePicker) → (check_mode p).in_progress ≡ p.in_progress
unfolding check_mode
in_progress-check_mode p = ground arith

-- No piece that is in progress and that the peer has has a free block.
abbrev pub Exhausted : PiecePicker → Bitfield → Type 0
Exhausted p bf =
    (i : ℕ) (q : PieceProgress) → find i p.in_progress ≡ some q → holds bf i ≡ true → NoneFree q

-- A new piece of the torrent.
abbrev pub fresh_piece : PiecePicker → ℕ → PieceProgress
fresh_piece p i = Progress.new (actual_piece_length p i)

abbrev pub request_for : ℕ → PieceProgress → ℕ → BlockRequest
request_for i q b = record { piece_index = i; offset = b * block_size; length = block_length q b }

-- The block is assigned in the state.
pub record AssignedIn (p : PiecePicker) (i b : ℕ) : Type 0 where
  pub piece : PieceProgress
  pub in_map : find i p.in_progress ≡ some piece
  pub on : flag piece.blocks_assigned b ≡ true

-- What `pick_block` should come to: a free block of a piece in progress; if there is none, a block of
-- a rarest new piece; and nothing only if there is neither.
pub data Asks (p : PiecePicker) (bf : Bitfield) : PiecePicker × Option BlockRequest → Type 0 where
  continued :
      (p' : PiecePicker) (i b : ℕ) (q : PieceProgress)
      → holds bf i ≡ true
      → find i p.in_progress ≡ some q
      → b < q.num_blocks
      → is_free q b ≡ true
      → AssignedIn p' i b
      → Asks p bf (p', some (request_for i q b))
  begun :
      (p' : PiecePicker) (i b : ℕ)
      → Exhausted p bf
      → i < p.num_pieces
      → is_candidate p bf i ≡ true
      → RarestBelow p bf p.num_pieces i
      → b < (fresh_piece p i).num_blocks
      → AssignedIn p' i b
      → Asks p bf (p', some (request_for i (fresh_piece p i) b))
  idle : (p' : PiecePicker) → Exhausted p bf → NoneBelow p bf p.num_pieces → Asks p bf (p', none)

module _ (p : PiecePicker) (bf : Bitfield) (m : List (ℕ × PieceProgress))
    (same_keys : (i : ℕ) → contains_key i m ≡ contains_key i p.in_progress) where
  moved_on : PiecePicker
  moved_on = record p { in_progress = m }

  is_candidate-same :
      (i : ℕ) → is_candidate (record p { in_progress = m }) bf i ≡ is_candidate p bf i
  unfolding is_candidate
  is_candidate-same i = rw (same_keys i)

  Picks-same : {o : Option ℕ} → Picks (record p { in_progress = m }) bf o → Picks p bf o
  Picks-same (nothing h) = nothing (λ i lt. sym (is_candidate-same i) ∙ h i lt)
  Picks-same (rarest j lt cand h) =
      rarest j lt (sym (is_candidate-same j) ∙ cand)
        (λ i lt' cand'. h i lt' (is_candidate-same i ∙ cand'))

-- Pieces have a length that is not zero, and so has each of them a block.
actual_piece_length-positive :
    (p : PiecePicker) (i : ℕ) → 0 < p.piece_length → 0 < actual_piece_length p i
unfolding actual_piece_length
actual_piece_length-positive p i h = ground arith

new_blocks : (len : ℕ) → 0 < len → 0 < (Progress.new len).num_blocks
unfolding Progress.new
new_blocks len h = omega arith

new_free : (len b : ℕ) → is_free (Progress.new len) b ≡ true
unfolding Progress.new
new_free len b = ground (arith, flag-replicate (blocks_of len) b)

Picks-none : {p : PiecePicker} {bf : Bitfield} → Picks p bf none → NoneBelow p bf p.num_pieces
Picks-none (nothing h) = h

Picks-some :
    {p : PiecePicker} {bf : Bitfield} {i : ℕ}
    → Picks p bf (some i)
    → (i < p.num_pieces) × (is_candidate p bf i ≡ true) × RarestBelow p bf p.num_pieces i
Picks-some (rarest i lt cand h) = (lt, cand, h)

AssignedIn-assigned :
    (p : PiecePicker) (i b : ℕ) (q : PieceProgress)
    → flag q.blocks_assigned b ≡ true
    → AssignedIn (check_mode (assigned p i q b).0) i b
unfolding assigned
AssignedIn-assigned p i b q on =
    let q' = record q { active_peers = more_active q.active_peers } in
    let p' = record p { in_progress = put i q' p.in_progress } in
    record {
      piece = q';
      in_map = rw (in_progress-check_mode p') (ground (arith, find-put i i q' p.in_progress));
      on = on;
    }

module _ (rnd : ℕ → ℕ) (p : PiecePicker) (bf : Bitfield) (m : List (ℕ × PieceProgress))
    (same_keys : (i : ℕ) → contains_key i m ≡ contains_key i p.in_progress) (bounded : Countable p)
    (long : 0 < p.piece_length) (exhausted : Exhausted p bf) where
  begin_piece :
      (i : ℕ)
      → Picks p bf (some i)
      → pick_piece rnd (record p { in_progress = m }) bf ≡ some i
      → Asks p bf (start_piece rnd (record p { in_progress = m }) bf)
  unfolding start_piece actual_piece_length assigned block_length
  begin_piece i picks e =
      let (lt, cand, h) = Picks-some picks in
      let len = actual_piece_length p i in
      let positive = new_blocks len (actual_piece_length-positive p i long) in
      elim (search_cases (Progress.new len) (new-IsValid len)) [
        | inr (c, busy, v, at) ↦ absurd (cc (new_free len 0, busy 0 positive))
        | inl (b, within, free, at) ↦
            let v = new-IsValid len in
            let set_on =
              flag-set (Progress.new len).blocks_assigned b b true
                (omega (arith, v.assigned_size)) in
            let on : flag (set (Progress.new len).blocks_assigned b true) b ≡ true =
              ground (arith, set_on) in
            rw (e, at, start_piece)
              (rw at (
                begun _ i b exhausted lt cand h within (
                  AssignedIn-assigned (record p { in_progress = m }) i b
                    (at_cursor
                      (record (Progress.new len) {
                        blocks_assigned = set (Progress.new len).blocks_assigned b true;
                      })
                      (b + 1))
                    on)))
      ]

  start_piece-Asks : Asks p bf (start_piece rnd (record p { in_progress = m }) bf)
  unfolding start_piece
  start_piece-Asks =
      let picks =
        Picks-same p bf m same_keys
          (pick_piece-Picks rnd (record p { in_progress = m }) bf bounded) in
      elim (Option-cases (pick_piece rnd (record p { in_progress = m }) bf)) [
        | inl e ↦
            rw (e, start_piece)
              (idle (record p { in_progress = m }) exhausted (Picks-none (rw e at picks)))
        | inr (i, e) ↦ begin_piece i (rw e at picks) e
      ]

Exhausted-candidates :
    (p : PiecePicker) (bf : Bitfield) (order : List ℕ)
    → ((i : ℕ) → contains_key i p.in_progress ≡ true → visits i order ≡ true)
    → ((i : ℕ) (q : PieceProgress)
        → listed i (sort_by_active (candidates p bf order)) ≡ true
        → find i p.in_progress ≡ some q
        → NoneFree q)
    → Exhausted p bf
Exhausted-candidates p bf order all none_free i q e on =
    let key = find-contains_key i p.in_progress e in
    none_free i q
      (ground (
        arith,
        listed-sort i (candidates p bf order),
        listed-candidates p bf i order,
        key,
        all i key,
      ))
      e

-- How `pick_block` goes on.
abbrev then_start :
    (ℕ → ℕ) → Bitfield → PiecePicker × Option BlockRequest → PiecePicker × Option BlockRequest
then_start rnd bf (p', picked) = elim picked [
  | none ↦ start_piece rnd p' bf
  | some request ↦ (p', some request)
]

module _ (rnd : ℕ → ℕ) (order : List ℕ) (p : PiecePicker) (bf : Bitfield) (bounded : Countable p)
    (long : 0 < p.piece_length)
    (all : (i : ℕ) → contains_key i p.in_progress ≡ true → visits i order ≡ true) where
  Continues-Asks :
      {r : PiecePicker × Option BlockRequest}
      → Continues p (sort_by_active (candidates p bf order)) r
      → Asks p bf (then_start rnd bf r)
  Continues-Asks (asks p' i b q q' l e lt free e' on) =
      let held : holds bf i ≡ true =
        ground (arith, listed-sort i (candidates p bf order), listed-candidates p bf i order) in
      continued p' i b q held e lt free (record { piece = q'; in_map = e'; on = on })
  Continues-Asks (stuck m none_free same_keys) =
      start_piece-Asks rnd p bf m same_keys bounded long
        (Exhausted-candidates p bf order all none_free)

-- Whatever is drawn, in every mode of the picker, `random_first` included, and in whatever order the
-- map is visited, as long as that order has all its keys, `pick_block` asks a peer for a free block of a piece in progress that the peer has, and
-- assigns it. Only when there is none does it begin a piece, one of the rarest that the peer has and
-- the picker lacks, and only when there is none of these either does it ask for nothing. The pieces
-- in progress are valid, the availabilities fit 16 bits and pieces are not empty.
pub pick_block-Asks :
    (rnd : ℕ → ℕ) (order : List ℕ) (p : PiecePicker) (bf : Bitfield)
    → AllValid p.in_progress
    → Countable p
    → 0 < p.piece_length
    → ((i : ℕ) → contains_key i p.in_progress ≡ true → visits i order ≡ true)
    → Asks p bf (pick_block rnd order p bf)
unfolding pick_block
pick_block-Asks rnd order p bf valid bounded long all =
    Continues-Asks rnd order p bf bounded long all
      (continue_piece-Continues p (sort_by_active (candidates p bf order)) valid)
