-- ===== src/Engine/Resume/Adopted.antt =====
-- src/engine/resume.rs: which pieces are adopted.
use moviehouse.Prelude.{
  ℕ, zero, suc, ◌+◌, ◌%◌, ◌^◌, ◌<◌, ◌≤◌, ◌≡◌, refl, arith, List, Bool, false, ◌&&◌, Option, none,
  some, ltb, ◌==◌, ==_iff, if◌then◌else◌, length, Bool-cases, Option-cases, inl, inr,
}
use moviehouse.Piece.Bitfield.{holds}
use moviehouse.Piece.Bitfield.Updates.{holds-new}
use moviehouse.Piece.Picker.{PiecePicker, mark_verified, new}
use moviehouse.Piece.Picker.Kept.{Fit}
use moviehouse.Piece.Picker.Verified.{
  new-Fit, mark_verified-Fit, holds-mark_verified, verified_count-mark_verified,
  num_pieces-mark_verified,
}
use moviehouse.Piece.Store.{PieceStore, verify}
use moviehouse.Torrent.Metainfo.{Info}
use moviehouse.Engine.Resume.{piece_len, adopt, adopt_below, verify_on_disk}

module _ (sha1 : List ℕ → List ℕ) (read : ℕ → ℕ → Option (List ℕ)) {PathBuf : Type 0}
    (store : PieceStore) (info : Info PathBuf) where
  -- A piece that can be read, has the length of its piece and has the right hash.
  unfoldable pub is_good : ℕ → Bool
  is_good index = elim (read index (piece_len info index)) [
    | none ↦ false
    | some bytes ↦ length bytes % 2 ^ 32 == piece_len info index && verify sha1 store index bytes
  ]

  -- The state after the pieces below `n`: exactly the good ones are owned, and they are counted.
  pub record Adopts (n pieces : ℕ) (r : PiecePicker × ℕ) : Type 0 where
    pub fit : Fit r.0
    pub size : r.0.num_pieces ≡ pieces
    pub owned : (i : ℕ) → holds r.0.owned i ≡ (ltb i n && is_good i)
    pub counted : r.0.verified_count ≡ r.1

  adopt-cases :
      (n : ℕ) (picker : PiecePicker) (verified : ℕ)
      → adopt sha1 read store info n (picker, verified)
        ≡ (if is_good n then (mark_verified picker n, verified + 1) else (picker, verified))
  unfolding adopt is_good
  adopt-cases n picker verified = elim (Option-cases (read n (piece_len info n))) [
    | inl missing ↦ rw (missing, adopt, is_good) refl
    | inr (bytes, e) ↦ rw (e, adopt, is_good) refl
  ]

  adopt-Adopts :
      (n pieces : ℕ) (r : PiecePicker × ℕ)
      → n < pieces
      → Adopts n pieces r
      → Adopts (suc n) pieces (adopt sha1 read store info n r)
  adopt-Adopts n pieces (picker, verified) lt h =
      let within : n < picker.num_pieces = omega (arith, h.size) in
      let off : holds picker.owned n ≡ false = ground (arith, h.owned n) in
      rw (adopt-cases n picker verified) (elim (Bool-cases (is_good n)) [
        | inl good ↦ rw good (record {
          fit = mark_verified-Fit picker n h.fit within off;
          size = rw num_pieces-mark_verified h.size;
          owned = λ i. elim (Bool-cases (n == i)) [
            | inl same ↦
                let at : n ≡ i = (==_iff n i).0 same in
                rw (← at) (ground (arith, holds-mark_verified picker n h.fit within off n))
            | inr other ↦ ground (arith, holds-mark_verified picker n h.fit within off i, h.owned i)
          ];
          counted = omega (arith, verified_count-mark_verified picker n, h.counted);
        })
        | inr bad ↦ rw bad (record {
          fit = h.fit;
          size = h.size;
          owned = λ i. elim (Bool-cases (n == i)) [
            | inl same ↦ let at : n ≡ i = (==_iff n i).0 same in rw (← at) (ground arith)
            | inr other ↦ ground (arith, h.owned i)
          ];
          counted = h.counted;
        })
      ])

  adopt_below-Adopts :
      (n : ℕ) (picker : PiecePicker)
      → n ≤ picker.num_pieces
      → Fit picker
      → ((i : ℕ) → holds picker.owned i ≡ false)
      → picker.verified_count ≡ 0
      → Adopts n picker.num_pieces (adopt_below sha1 read store info n picker)
  unfolding adopt_below
  adopt_below-Adopts zero picker le f none_owned none_counted = record {
    fit = f;
    size = refl;
    owned = λ i. ground (arith, none_owned i);
    counted = none_counted;
  }
  adopt_below-Adopts (suc n) picker le f none_owned none_counted =
      adopt-Adopts n picker.num_pieces _ (omega arith)
        (adopt_below-Adopts n picker (omega arith) f none_owned none_counted)

  -- After `verify_on_disk` a new picker owns exactly the pieces that could be read, have the length of
  -- the piece and have the hash of the torrent. The number that is returned is the picker's count, and
  -- the picker is fit: nothing is in progress that it owns.
  pub verify_on_disk-Adopts : Adopts (length info.pieces) (length info.pieces) (
      verify_on_disk sha1 read store info
        (new (length info.pieces) info.piece_length info.total_length))
  unfolding verify_on_disk new
  verify_on_disk-Adopts =
      let n = length info.pieces in
      adopt_below-Adopts n (new n info.piece_length info.total_length) (omega arith)
        (new-Fit n info.piece_length info.total_length) (holds-new n) refl
