-- ===== src/Piece/Picker/Candidates.antt =====
-- src/piece/picker.rs: the candidates of `pick_block` among the pieces in progress.
use moviehouse.Prelude.{
  ℕ, ◌≡◌, refl, arith, List, [], ◌∷◌, Bool, false, ◌&&◌, ◌||◌, none, some, ◌==◌, ==_iff,
  if◌then◌else◌, inl, inr, Bool-cases, Option-cases,
}
use moviehouse.Prelude.Assoc.{find, contains_key, contains_key-find}
use moviehouse.Piece.Bitfield.{Bitfield, holds}
use moviehouse.Piece.Picker.{PiecePicker, candidates, insert_by_active, sort_by_active}
use moviehouse.Piece.Picker.Continue.{listed}

listed-insert :
    (i : ℕ) (x : ℕ × ℕ) (l : List (ℕ × ℕ))
    → listed i (insert_by_active x l) ≡ (x.0 == i || listed i l)
unfolding insert_by_active
listed-insert i x [] = refl
listed-insert i x (y ∷ l) = ground (arith, listed-insert i x l)

pub listed-sort : (i : ℕ) (l : List (ℕ × ℕ)) → listed i (sort_by_active l) ≡ listed i l
unfolding sort_by_active
listed-sort i [] = refl
listed-sort i (x ∷ l) = ground (arith, listed-insert i x (sort_by_active l), listed-sort i l)

abbrev pub visits : ℕ → List ℕ → Bool
visits i [] = false
visits i (j ∷ order) = j == i || visits i order

listed-candidate :
    (p : PiecePicker) (bf : Bitfield) (i : ℕ) (l : List (ℕ × ℕ))
    → listed i (elim (find i p.in_progress) [
      | none ↦ l
      | some q ↦ if holds bf i then (i, q.active_peers) ∷ l else l
    ])
      ≡ ((contains_key i p.in_progress && holds bf i) || listed i l)
listed-candidate p bf i l = elim (Option-cases (find i p.in_progress)) [
  | inl e ↦ rw e (ground (arith, contains_key-find i p.in_progress))
  | inr (q, e) ↦ rw e (ground (arith, contains_key-find i p.in_progress))
]

listed-other :
    (p : PiecePicker) (bf : Bitfield) (i j : ℕ) (l : List (ℕ × ℕ))
    → j == i ≡ false
    → listed i (elim (find j p.in_progress) [
      | none ↦ l
      | some q ↦ if holds bf j then (j, q.active_peers) ∷ l else l
    ])
      ≡ listed i l
listed-other p bf i j l other = elim (Option-cases (find j p.in_progress)) [
  | inl e ↦ rw e
  | inr (q, e) ↦ rw e (ground arith)
]

-- The candidates are the pieces in progress that the peer has.
pub listed-candidates :
    (p : PiecePicker) (bf : Bitfield) (i : ℕ) (order : List ℕ)
    → listed i (candidates p bf order)
      ≡ (visits i order && (contains_key i p.in_progress && holds bf i))
unfolding candidates
listed-candidates p bf i [] = refl
listed-candidates p bf i (j ∷ order) = elim (Bool-cases (j == i)) [
  | inl same ↦
      let at : j ≡ i = (==_iff j i).0 same in
      rw at (
        ground
          (arith, listed-candidate p bf i (candidates p bf order), listed-candidates p bf i order))
  | inr other ↦
      ground
        (arith, listed-other p bf i j (candidates p bf order) other, listed-candidates p bf i order)
]
