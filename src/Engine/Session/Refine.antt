-- ===== src/Engine/Session/Refine.antt =====
-- src/engine/session.rs: the event loop as a torrent that gains its pieces one by one.
use moviehouse.Prelude.{
  ℕ, ◌+◌, ◌*◌, min, ◌%◌, ◌^◌, ◌<◌, ◌≡◌, refl, arith, List, ◌∷◌, Bool, true, false, ◌==◌,
  if◌then◌else◌, length, Bool-cases, inl, inr,
}
use mathlib.Core.Path.{fun_ext}
use moviehouse.Piece.Bitfield.{holds}
use moviehouse.Piece.Picker.{
  BlockResult, duplicate, progress, piece_complete, mark_verified, piece_failed,
}
use moviehouse.Piece.Picker
use moviehouse.Piece.Picker.Kept.{piece_failed-Kept}
use moviehouse.Piece.Picker.Verified.{
  block_received-Kept, block_received-missing, holds-mark_verified,
}
use moviehouse.Piece.Store.{PieceStore, verify}
use moviehouse.Engine.Choker.{cancel_block, send_have}
use moviehouse.Peer.Manager.{connected_peers}
use moviehouse.Engine.Session.{Env, Session, fill_pipeline}
use moviehouse.Engine.Session.Events.{
  on_piece_complete, on_result, on_block, cancel_piece, settle, endgame_blast,
}
use moviehouse.Engine.Session.Quiet.{
  Quiet, Quiet-trans, Quiet-pool, Quiet-picker, fill_pipeline-Quiet,
}
use moviehouse.Engine.Session.Arms.{
  send_each-Quiet, cancel_others-Quiet, cancel_piece-Quiet, settle-Quiet, endgame_blast-Quiet,
}
use moviehouse.Engine.Session.Downloads.{Sound, Sound-Quiet}

-- What a torrent looks like from outside: the pieces it has, and those that it gained, the last first.
pub record Torrent : Type 0 where
  pub pieces : ℕ → Bool
  pub gained : List (ℕ × List ℕ)

abbrev pub gain : ℕ → List ℕ → Torrent → Torrent
gain i bytes t = record {
  pieces = λ j. if i == j then true else t.pieces j;
  gained = (i, bytes) ∷ t.gained;
}

module _ (sha1 : List ℕ → List ℕ) (store : PieceStore) where
  -- One piece that was missing, in range, with the right hash; or nothing.
  pub data Gains : Torrent → Torrent → Type 0 where
    idle : (t : Torrent) → Gains t t
    gains :
        (t : Torrent) (i : ℕ) (bytes : List ℕ)
        → i < length store.piece_hashes
        → t.pieces i ≡ false
        → verify sha1 store i bytes ≡ true
        → Gains t (gain i bytes t)

  -- Any number of them.
  pub data Downloads : Torrent → Torrent → Type 0 where
    nothing : (t : Torrent) → Downloads t t
    then_gains : (a b c : Torrent) → Downloads a b → Gains b c → Downloads a c

abbrev pub view : Session → Torrent
view s = record { pieces = holds s.picker.owned; gained = s.writes }

view-Quiet : (s t : Session) → Quiet s t → view t ≡ view s
view-Quiet s t q = rw (q.kept.same_owned, q.same_writes) refl

module _ (sha1 : List ℕ → List ℕ) (store : PieceStore) (adopted : ℕ) where
  pub Gains-Quiet : (s t : Session) → Quiet s t → Gains sha1 store (view s) (view t)
  Gains-Quiet s t q = rw (view-Quiet s t q) (idle (view s))

  Gains-after :
      (s t u : Session)
      → Quiet t u
      → Gains sha1 store (view s) (view t)
      → Gains sha1 store (view s) (view u)
  Gains-after s t u q h = rw (view-Quiet t u q) h

  pub Gains-before :
      (s t u : Session)
      → Quiet s t
      → Gains sha1 store (view t) (view u)
      → Gains sha1 store (view s) (view u)
  Gains-before s t u q h = rw (← view-Quiet s t q) h

  module _ (env : Env) (piece : ℕ) (bytes : List ℕ) (s : Session) (h : Sound sha1 store adopted s)
      (lt : piece < s.picker.num_pieces) (off : holds s.picker.owned piece ≡ false) where
    more_pieces :
        holds (mark_verified s.picker piece).owned
        ≡ (λ j. if piece == j then true else holds s.picker.owned j)
    more_pieces = fun_ext (λ j. holds-mark_verified s.picker piece h.fit lt off j)

    on_piece_complete-Gains :
        Gains sha1 store (view s) (view (on_piece_complete sha1 env piece bytes s))
    unfolding on_piece_complete
    on_piece_complete-Gains =
        let failed : Session = record s { picker = piece_failed s.picker piece } in
        let p = mark_verified s.picker piece in
        let written : Session = record s {
          picker = p;
          pieces_done = p.verified_count;
          downloaded_bytes = min (p.verified_count * s.piece_length) s.total_length;
          writes = (piece, bytes) ∷ s.writes;
        } in
        elim (Bool-cases (verify sha1 s.piece_store piece bytes)) [
          | inr bad ↦ rw bad (
              Gains-Quiet s failed
                (Quiet-picker s failed (piece_failed-Kept s.picker piece) refl refl refl refl))
          | inl ok ↦ rw ok (
              Gains-after s written _
                (send_each-Quiet env (send_have piece) (connected_peers s.peer_manager) written)
                (rw more_pieces
                  (gains (view s) piece bytes (omega (arith, h.size)) off (rw h.same_store at ok))))
        ]

  module _ (env : Env) (addr piece offset : ℕ) (bytes : List ℕ) where
    on_result-Gains :
        (result : BlockResult) (s : Session)
        → ((whole : List ℕ)
            → result ≡ piece_complete whole
            → (piece < s.picker.num_pieces) × (holds s.picker.owned piece ≡ false))
        → Sound sha1 store adopted s
        → Gains sha1 store (view s) (view (on_result sha1 env addr piece offset bytes result s))
    unfolding on_result
    on_result-Gains duplicate s missing h =
        Gains-Quiet s _
          (cancel_others-Quiet env addr (cancel_block piece offset (length bytes % 2 ^ 32)) s)
    on_result-Gains (progress new_bytes) s missing h =
        let s' : Session = record s { bytes_new = s.bytes_new + new_bytes } in
        Gains-Quiet s _ (
          Quiet-trans s s' _ (Quiet-pool s s' refl refl refl refl (λ b. b) (λ a. a))
            (cancel_others-Quiet env addr (cancel_block piece offset (length bytes % 2 ^ 32)) s'))
    on_result-Gains (piece_complete whole) s missing h =
        let (lt, off) = missing whole refl in
        let s' : Session = record s { bytes_new = s.bytes_new + length bytes } in
        let t = cancel_piece env addr piece s' in
        let q : Quiet s t =
          Quiet-trans s s' t (Quiet-pool s s' refl refl refl refl (λ b. b) (λ a. a))
            (cancel_piece-Quiet env addr piece s') in
        Gains-before s t (on_piece_complete sha1 env piece whole t) q (
          on_piece_complete-Gains env piece whole t (Sound-Quiet sha1 store adopted s t q h)
            (rw q.kept.same_size lt) (rw q.kept.same_owned off))

    pub on_block-Gains :
        (s : Session)
        → Sound sha1 store adopted s
        → Gains sha1 store (view s) (view (on_block sha1 env addr piece offset bytes s))
    unfolding on_block
    on_block-Gains s h =
        let settled = settle addr piece offset s in
        let p = settled.picker in
        let received = Picker.block_received p piece offset bytes in
        let s' : Session = record settled { picker = received.0 } in
        let k = block_received-Kept p piece offset bytes in
        let q = settle-Quiet addr piece offset s in
        let q' = Quiet-picker settled s' k refl refl refl refl in
        let ready = Sound-Quiet sha1 store adopted s settled q h in
        let t = on_result sha1 env addr piece offset bytes received.1 s' in
        let filled = fill_pipeline env addr t in
        let result : Gains sha1 store (view s') (view t) =
          on_result-Gains received.1 s'
            (λ whole e.
              let (lt, off) = block_received-missing p piece offset bytes ready.fit e in
              (rw k.same_size lt, rw k.same_owned off))
            (Sound-Quiet sha1 store adopted settled s' q' ready) in
        Gains-before s s' (endgame_blast env filled) (Quiet-trans s settled s' q q') (
          Gains-after s' t (endgame_blast env filled)
            (Quiet-trans t filled (endgame_blast env filled) (fill_pipeline-Quiet env addr t)
              (endgame_blast-Quiet env filled))
            result)
