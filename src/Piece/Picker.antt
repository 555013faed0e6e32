-- ===== src/Piece/Picker.antt =====
-- src/piece/picker.rs: `PiecePicker`, which block to ask a peer for. The map of the pieces in
-- progress is the list of its entries. What the code leaves open is an argument: the order in which
-- the keys of the map are visited (`order`) and the draws of the random generator (`rnd`). Bitfields
-- are read where they do not panic (`holds`), as all valid ones are.
pub mod Rarest
pub mod Continue
pub mod Candidates
pub mod Asking
pub mod Availability
pub mod Assemble
pub mod Kept
pub mod Verified
pub mod Blocks
use moviehouse.Prelude.{
  ℕ, zero, suc, ◌+◌, ◌-◌, ◌*◌, ◌/◌, ◌%◌, ◌^◌, List, [], ◌∷◌, ◌++◌, Bool, true, false, not, ◌&&◌,
  ◌||◌, Option, none, some, leb, ltb, ◌==◌, if◌then◌else◌, length, get_or, set, replicate, min,
}
use moviehouse.Prelude.Assoc.{find, put, remove, contains_key}
use moviehouse.Peer.Message.{block_size}
use moviehouse.Piece.Bitfield
use moviehouse.Piece.Bitfield.{Bitfield, holds, set_indices, with_piece}
use moviehouse.Piece.Progress
use moviehouse.Piece.Progress.{
  PieceProgress, block_length, assign_next_block, mark_received, mark_unassigned, unreceived_blocks,
}

pub record BlockRequest : Type 0 where
  pub piece_index : ℕ
  pub offset : ℕ
  pub length : ℕ

pub data BlockResult : Type 0 where
  duplicate : BlockResult
  progress : ℕ → BlockResult
  piece_complete : List ℕ → BlockResult

pub data PickerMode : Type 0 where
  random_first rarest_first endgame : PickerMode

pub record PiecePicker : Type 0 where
  pub num_pieces : ℕ
  pub availability : List ℕ
  pub owned : Bitfield
  pub in_progress : List (ℕ × PieceProgress)
  pub mode : PickerMode
  pub piece_length : ℕ
  pub total_length : ℕ
  pub verified_count : ℕ

unfoldable pub new : ℕ → ℕ → ℕ → PiecePicker
new num_pieces piece_length total_length = record {
  num_pieces = num_pieces;
  availability = replicate num_pieces 0;
  owned = Bitfield.new num_pieces;
  in_progress = [];
  mode = random_first;
  piece_length = piece_length;
  total_length = total_length;
  verified_count = 0;
}

abbrev pub u16_max : ℕ
u16_max = 65_535

-- `availability[i].saturating_add(1)` and `availability[i].saturating_sub(1)`
unfoldable pub more_available : ℕ → List ℕ → List ℕ
more_available i av = set av i (min u16_max (get_or av i 0 + 1))

unfoldable pub less_available : ℕ → List ℕ → List ℕ
less_available i av = set av i (get_or av i 0 - 1)

-- The loop over the indices of a bitfield, for those in range.
unfoldable pub each_within : ℕ → (ℕ → List ℕ → List ℕ) → List ℕ → List ℕ → List ℕ
each_within n f [] av = av
each_within n f (i ∷ is) av = each_within n f is (if ltb i n then f i av else av)

unfoldable pub peer_has_bitfield : PiecePicker → Bitfield → PiecePicker
unfolding each_within
peer_has_bitfield p bf = record p {
  availability = each_within p.num_pieces more_available (set_indices bf) p.availability;
}

unfoldable pub peer_has_piece : PiecePicker → ℕ → PiecePicker
peer_has_piece p i =
    if ltb i p.num_pieces then record p { availability = more_available i p.availability } else p

unfoldable pub peer_disconnected : PiecePicker → Bitfield → PiecePicker
unfolding each_within
peer_disconnected p bf = record p {
  availability = each_within p.num_pieces less_available (set_indices bf) p.availability;
}

abbrev pub mode_is_endgame : PickerMode → Bool
mode_is_endgame random_first = false
mode_is_endgame rarest_first = false
mode_is_endgame endgame = true

unfoldable pub is_endgame : PiecePicker → Bool
is_endgame p = mode_is_endgame p.mode

-- The requests for the blocks of one piece.
unfoldable pub requests_for : ℕ → List (ℕ × ℕ) → List BlockRequest
requests_for i [] = []
requests_for i ((block, len) ∷ blocks) =
    record { piece_index = i; offset = block * block_size; length = len } ∷ requests_for i blocks

unfoldable pub endgame_from : Bitfield → List (ℕ × PieceProgress) → List BlockRequest
endgame_from bf [] = []
endgame_from bf ((i, q) ∷ m) =
    let rest = endgame_from bf m in
    if holds bf i then requests_for i (unreceived_blocks q) ++ rest else rest

-- The entries of the map are visited in the order in which they stand.
unfoldable pub endgame_requests : PiecePicker → Bitfield → List BlockRequest
unfolding endgame_from
endgame_requests p bf = endgame_from bf p.in_progress

unfoldable pub check_mode : PiecePicker → PiecePicker
check_mode p =
    let remaining = p.num_pieces - p.owned.count in
    if not (mode_is_endgame p.mode) && ltb 0 remaining && length p.in_progress == remaining
    then record p { mode = endgame }
    else p

-- The best piece so far, of `pick_piece`.
pub record Best : Type 0 where
  pub best_idx : Option ℕ
  pub best_avail : ℕ
  pub best_count : ℕ

-- A piece that the peer has and that is neither here nor in progress.
unfoldable pub is_candidate : PiecePicker → Bitfield → ℕ → Bool
is_candidate p bf i = holds bf i && not (holds p.owned i) && not (contains_key i p.in_progress)

unfoldable pub consider : (ℕ → ℕ) → PiecePicker → ℕ → Best → Best
consider rnd p i b =
    let avail = get_or p.availability i 0 in
    if ltb avail b.best_avail
    then record { best_idx = some i; best_avail = avail; best_count = 1 }
    else if avail == b.best_avail
    then record b {
      best_idx = if rnd i % (b.best_count + 1) == 0 then some i else b.best_idx;
      best_count = b.best_count + 1;
    }
    else b

-- The loop of `pick_piece` over the pieces below `n`.
unfoldable pub best_below : (ℕ → ℕ) → PiecePicker → Bitfield → ℕ → Best
unfolding is_candidate
best_below rnd p bf zero = record { best_idx = none; best_avail = u16_max; best_count = 0 }
best_below rnd p bf (suc n) =
    let b = best_below rnd p bf n in if is_candidate p bf n then consider rnd p n b else b

unfoldable pub pick_piece : (ℕ → ℕ) → PiecePicker → Bitfield → Option ℕ
unfolding best_below
pick_piece rnd p bf = (best_below rnd p bf p.num_pieces).best_idx

unfoldable pub actual_piece_length : PiecePicker → ℕ → ℕ
actual_piece_length p i =
    if i == p.num_pieces - 1
    then (let remainder = p.total_length % p.piece_length % 2 ^ 32 in
        if remainder == 0 then p.piece_length else remainder)
    else p.piece_length

-- The pieces in progress that the peer has, with their numbers of active peers.
unfoldable pub candidates : PiecePicker → Bitfield → List ℕ → List (ℕ × ℕ)
candidates p bf [] = []
candidates p bf (i ∷ order) =
    let rest = candidates p bf order in
    elim (find i p.in_progress) [
      | none ↦ rest
      | some q ↦ if holds bf i then (i, q.active_peers) ∷ rest else rest
    ]

-- `sort_by_key`, which is stable: an entry goes before those with more active peers.
unfoldable pub insert_by_active : ℕ × ℕ → List (ℕ × ℕ) → List (ℕ × ℕ)
insert_by_active x [] = x ∷ []
insert_by_active x (y ∷ ys) =
    let later = insert_by_active x ys in if leb x.1 y.1 then x ∷ y ∷ ys else y ∷ later

unfoldable pub sort_by_active : List (ℕ × ℕ) → List (ℕ × ℕ)
unfolding insert_by_active
sort_by_active [] = []
sort_by_active (x ∷ xs) = insert_by_active x (sort_by_active xs)

abbrev pub more_active : ℕ → ℕ
more_active a = min 255 (a + 1)

-- What is put into the map and asked for when a block was assigned.
unfoldable pub assigned : PiecePicker → ℕ → PieceProgress → ℕ → PiecePicker × BlockRequest
assigned p i q block = (
  record p {
    in_progress = put i (record q { active_peers = more_active q.active_peers }) p.in_progress;
  },
  record { piece_index = i; offset = block * block_size; length = block_length q block },
)

-- The loop over the sorted candidates. A search without success moves the cursor.
unfoldable pub continue_piece : PiecePicker → List (ℕ × ℕ) → PiecePicker × Option BlockRequest
continue_piece p [] = (p, none)
continue_piece p ((i, _) ∷ rest) = elim (find i p.in_progress) [
  | none ↦ continue_piece p rest
  | some q ↦
      let (q', free) = assign_next_block q in
      elim free [
        | none ↦ continue_piece (record p { in_progress = put i q' p.in_progress }) rest
        | some block ↦ let (p', request) = assigned p i q' block in (p', some request)
      ]
]

-- The second half of `pick_block`. A piece that is picked is not in progress.
unfoldable pub start_piece : (ℕ → ℕ) → PiecePicker → Bitfield → PiecePicker × Option BlockRequest
start_piece rnd p bf = elim (pick_piece rnd p bf) [
  | none ↦ (p, none)
  | some i ↦
      let (q, free) = assign_next_block (Progress.new (actual_piece_length p i)) in
      elim free [
        | none ↦ (record p { in_progress = put i q p.in_progress }, none)
        | some block ↦ let (p', request) = assigned p i q block in (check_mode p', some request)
      ]
]

unfoldable pub pick_block :
    (ℕ → ℕ) → List ℕ → PiecePicker → Bitfield → PiecePicker × Option BlockRequest
unfolding continue_piece
pick_block rnd order p bf =
    let (p', continued) = continue_piece p (sort_by_active (candidates p bf order)) in
    elim continued [ none ↦ start_piece rnd p' bf | some request ↦ (p', some request) ]

-- `copy_from_slice` into the bytes from `start`.
unfoldable pub overwrite : List ℕ → ℕ → List ℕ → List ℕ
overwrite [] start bytes = []
overwrite (x ∷ xs) zero [] = x ∷ xs
overwrite (x ∷ xs) zero (b ∷ bytes) = b ∷ overwrite xs zero bytes
overwrite (x ∷ xs) (suc start) bytes = x ∷ overwrite xs start bytes

-- Data that goes beyond the end of the piece is not copied.
unfoldable pub store_block : PieceProgress → ℕ → List ℕ → PieceProgress
store_block q offset bytes =
    if leb (offset + length bytes) (length q.buffer)
    then record q { buffer = overwrite q.buffer offset bytes }
    else q

unfoldable pub block_received : PiecePicker → ℕ → ℕ → List ℕ → PiecePicker × BlockResult
block_received p i offset bytes = elim (find i p.in_progress) [
  | none ↦ (p, duplicate)
  | some q ↦
      let (q', fresh) = mark_received q (offset / block_size) in
      let q'' = store_block q' offset bytes in
      if not fresh
      then (p, duplicate)
      else if Progress.is_complete q''
      then (record p { in_progress = remove i p.in_progress }, piece_complete q''.buffer)
      else (record p { in_progress = put i q'' p.in_progress }, progress (length bytes % 2 ^ 32))
]

abbrev pub after_first : PickerMode → PickerMode
after_first random_first = rarest_first
after_first rarest_first = rarest_first
after_first endgame = endgame

unfoldable pub mark_verified : PiecePicker → ℕ → PiecePicker
mark_verified p i = check_mode (record p {
  in_progress = remove i p.in_progress;
  owned = with_piece p.owned i;
  verified_count = p.verified_count + 1;
  mode = after_first p.mode;
})

unfoldable pub piece_failed : PiecePicker → ℕ → PiecePicker
piece_failed p i = record p { in_progress = remove i p.in_progress }

unfoldable pub unassign_block : PiecePicker → ℕ → ℕ → PiecePicker
unassign_block p i offset = elim (find i p.in_progress) [
  | none ↦ p
  | some q ↦ record p {
    in_progress = put i (mark_unassigned q (offset / block_size)) p.in_progress;
  }
]

unfoldable pub is_complete : PiecePicker → Bool
is_complete p = Bitfield.is_complete p.owned

-- The loop of `is_interested_in` over the pieces below `n`.
unfoldable pub wanted_below : PiecePicker → Bitfield → ℕ → Bool
wanted_below p bf zero = false
wanted_below p bf (suc n) = wanted_below p bf n || (holds bf n && not (holds p.owned n))

unfoldable pub is_interested_in : PiecePicker → Bitfield → Bool
unfolding wanted_below
is_interested_in p bf = wanted_below p bf p.num_pieces

unfoldable pub set_have : PiecePicker → ℕ → PiecePicker
set_have p i = record p { owned = with_piece p.owned i }
