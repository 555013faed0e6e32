-- ===== src/Engine/Session/Downloads.antt =====
-- src/engine/session.rs: what holds in every state of the event loop.
use moviehouse.Prelude.{
  ℕ, ◌+◌, ◌*◌, ◌%◌, ◌^◌, ◌<◌, ◌≡◌, refl, ◌∙◌, arith, List, [], ◌∷◌, Bool, true, false, some,
  if◌then◌else◌, length, min, All, Bool-cases, Option-cases, inl, inr,
}
use mathlib.Core.Path.{subst}
use moviehouse.Prelude.Assoc.{contains_key}
use moviehouse.Piece.Bitfield.{from_bytes, holds}
use moviehouse.Piece.Picker.{
  BlockResult, duplicate, progress, piece_complete, mark_verified, piece_failed,
}
use moviehouse.Piece.Picker
use moviehouse.Piece.Picker.Kept.{Fit, piece_failed-Kept}
use moviehouse.Piece.Picker.Verified.{
  block_received-Kept, block_received-missing, mark_verified-Fit, holds-mark_verified,
  verified_count-mark_verified, num_pieces-mark_verified,
}
use moviehouse.Piece.Store.{PieceStore, verify}
use moviehouse.Peer.Manager.{
  PeerEvent, connected, unchoked, choked, have, bitfield_received, have_all, block_received,
  extended_handshake, metadata_message, pex_peers, disconnected, handle_event, connected_peers,
}
use moviehouse.Peer.Manager.Bounds.{Bounded, handle_event-Bounded}
use moviehouse.Peer.Manager.Asked.{AtMost, handle_event-AtMost}
use moviehouse.Engine.Choker.{cancel_block, send_have}
use moviehouse.Engine.Session.{Env, Session}
use moviehouse.Engine.Session.Events.{
  cancel_piece, settle, on_piece_complete, on_result, on_block, dispatch, on_event,
}
use moviehouse.Engine.Session.Quiet.{
  deepest, Quiet, Quiet-trans, Quiet-picker, Quiet-pool, fill_pipeline-Quiet,
}
use moviehouse.Engine.Session.Arms.{
  send_each-Quiet, cancel_others-Quiet, cancel_piece-Quiet, endgame_blast-Quiet, settle-Quiet,
  on_connected-Quiet, with_bitfield-Quiet, on_have-Quiet, on_choked-Quiet, on_disconnected-Quiet,
  found_peers-Quiet,
}

-- No piece is written twice.
abbrev pub Once : List (ℕ × List ℕ) → Type 0
Once [] = Unit
Once ((i, _) ∷ writes) = (contains_key i writes ≡ false) × Once writes

-- A session that found `adopted` pieces on the disk: the invariants of its parts, and that each piece
-- that was handed to the disk had the right hash, was handed over once, is owned and is counted.
pub record Sound (sha1 : List ℕ → List ℕ) (store : PieceStore) (adopted : ℕ) (s : Session)
    : Type 0 where
  pub fit : Fit s.picker
  pub bounded : Bounded s.peer_manager
  pub asked : AtMost deepest s.peer_manager.peers
  pub same_store : s.piece_store ≡ store
  pub size : s.picker.num_pieces ≡ length store.piece_hashes
  pub verified : All (λ (i, bytes). verify sha1 store i bytes ≡ true) s.writes
  pub once : Once s.writes
  pub owned : (i : ℕ) → contains_key i s.writes ≡ true → holds s.picker.owned i ≡ true
  pub counted : s.picker.verified_count ≡ adopted + length s.writes
  pub done : s.pieces_done ≡ s.picker.verified_count

module _ (sha1 : List ℕ → List ℕ) (store : PieceStore) (adopted : ℕ) where
  pub Sound-Quiet :
      (s t : Session) → Quiet s t → Sound sha1 store adopted s → Sound sha1 store adopted t
  Sound-Quiet s t q h = record {
    fit = q.kept.fit h.fit;
    bounded = q.bounded h.bounded;
    asked = q.asked h.asked;
    same_store = q.same_store ∙ h.same_store;
    size = q.kept.same_size ∙ h.size;
    verified = rw q.same_writes h.verified;
    once = rw q.same_writes h.once;
    owned = rw (q.same_writes, q.kept.same_owned) h.owned;
    counted = rw (q.same_writes, q.kept.same_count) h.counted;
    done = rw (q.same_done, q.kept.same_count) h.done;
  }

  -- A piece that was missing has come.
  module _ (env : Env) (piece : ℕ) (bytes : List ℕ) (s : Session) (h : Sound sha1 store adopted s)
      (lt : piece < s.picker.num_pieces) (off : holds s.picker.owned piece ≡ false) where
    unwritten : contains_key piece s.writes ≡ false
    unwritten = elim (Bool-cases (contains_key piece s.writes)) [
      | inl on ↦ absurd (cc (off, h.owned piece on))
      | inr new ↦ new
    ]

    written_Sound :
        verify sha1 s.piece_store piece bytes ≡ true
        → Sound sha1 store adopted (record s {
          picker = mark_verified s.picker piece;
          pieces_done = (mark_verified s.picker piece).verified_count;
          downloaded_bytes =
              min ((mark_verified s.picker piece).verified_count * s.piece_length) s.total_length;
          writes = (piece, bytes) ∷ s.writes;
        })
    unfolding contains_key
    written_Sound ok = record {
      fit = mark_verified-Fit s.picker piece h.fit lt off;
      bounded = h.bounded;
      asked = h.asked;
      same_store = h.same_store;
      size = num_pieces-mark_verified s.picker piece ∙ h.size;
      verified = ((rw h.same_store at ok), h.verified);
      once = (unwritten, h.once);
      owned = λ j on. ground (arith, holds-mark_verified s.picker piece h.fit lt off j, h.owned j);
      counted = omega (arith, verified_count-mark_verified s.picker piece, h.counted);
      done = refl;
    }

    on_piece_complete-Sound : Sound sha1 store adopted (on_piece_complete sha1 env piece bytes s)
    unfolding on_piece_complete
    on_piece_complete-Sound = elim (Bool-cases (verify sha1 s.piece_store piece bytes)) [
      | inl ok ↦ rw ok (
          Sound-Quiet _ _ (send_each-Quiet env (send_have piece) (connected_peers s.peer_manager) _)
            (written_Sound ok))
      | inr bad ↦ rw bad (
          Sound-Quiet s _ (Quiet-picker s _ (piece_failed-Kept s.picker piece) refl refl refl refl)
            h)
    ]

  module _ (env : Env) (addr piece offset : ℕ) (bytes : List ℕ) where
    on_result-Sound :
        (result : BlockResult) (s : Session)
        → ((whole : List ℕ)
            → result ≡ piece_complete whole
            → (piece < s.picker.num_pieces) × (holds s.picker.owned piece ≡ false))
        → Sound sha1 store adopted s
        → Sound sha1 store adopted (on_result sha1 env addr piece offset bytes result s)
    unfolding on_result
    on_result-Sound duplicate s missing h =
        Sound-Quiet s _
          (cancel_others-Quiet env addr (cancel_block piece offset (length bytes % 2 ^ 32)) s) h
    on_result-Sound (progress new_bytes) s missing h =
        let s' : Session = record s { bytes_new = s.bytes_new + new_bytes } in
        Sound-Quiet s _
          (Quiet-trans s s' _ (Quiet-pool s s' refl refl refl refl (λ b. b) (λ a. a))
            (cancel_others-Quiet env addr (cancel_block piece offset (length bytes % 2 ^ 32)) s'))
          h
    on_result-Sound (piece_complete whole) s missing h =
        let (lt, off) = missing whole refl in
        let s' : Session = record s { bytes_new = s.bytes_new + length bytes } in
        let t = cancel_piece env addr piece s' in
        let q : Quiet s t =
          Quiet-trans s s' t (Quiet-pool s s' refl refl refl refl (λ b. b) (λ a. a))
            (cancel_piece-Quiet env addr piece s') in
        on_piece_complete-Sound env piece whole t (Sound-Quiet s t q h) (rw q.kept.same_size lt)
          (rw q.kept.same_owned off)

    on_block-Sound :
        (s : Session)
        → Sound sha1 store adopted s
        → Sound sha1 store adopted (on_block sha1 env addr piece offset bytes s)
    unfolding on_block
    on_block-Sound s h =
        let settled = settle addr piece offset s in
        let p = settled.picker in
        let received = Picker.block_received p piece offset bytes in
        let s' : Session = record settled { picker = received.0 } in
        let k = block_received-Kept p piece offset bytes in
        let ready : Sound sha1 store adopted settled =
          Sound-Quiet s settled (settle-Quiet addr piece offset s) h in
        let stored : Sound sha1 store adopted s' =
          Sound-Quiet settled s' (Quiet-picker settled s' k refl refl refl refl) ready in
        let done =
          on_result-Sound received.1 s'
            (λ whole e.
              let (lt, off) = block_received-missing p piece offset bytes ready.fit e in
              (rw k.same_size lt, rw k.same_owned off))
            stored in
        Sound-Quiet _ _ (endgame_blast-Quiet env _)
          (Sound-Quiet _ _ (fill_pipeline-Quiet env addr _) done)

  some-Sound :
      (s t : Session) → Sound sha1 store adopted s → some s ≡ some t → Sound sha1 store adopted t
  some-Sound s t h e = let same : s ≡ t = cc e in subst (Sound sha1 store adopted) same h

  one_of :
      (b : Bool) {s s' t : Session}
      → Sound sha1 store adopted s'
      → Sound sha1 store adopted s
      → (if b then some s' else some s) ≡ some t
      → Sound sha1 store adopted t
  one_of true {s' = s'} {t = t} h' h e = some-Sound s' t h' e
  one_of false {s = s} {t = t} h' h e = some-Sound s t h e

  dispatch-Sound :
      (env : Env) (addr : ℕ) (event : PeerEvent) (s t : Session)
      → Sound sha1 store adopted s
      → dispatch sha1 env addr event s ≡ some t
      → Sound sha1 store adopted t
  unfolding dispatch
  dispatch-Sound env addr (connected supports) s t h e =
      some-Sound _ t (Sound-Quiet s _ (on_connected-Quiet env addr supports s) h) e
  dispatch-Sound env addr (bitfield_received bytes) s t h e =
      elim (Option-cases (from_bytes bytes s.num_pieces)) [
        | inl short ↦ absurd (cc (rw (short, dispatch) at e))
        | inr (bf, at) ↦
            some-Sound _ t (Sound-Quiet s _ (with_bitfield-Quiet env addr bf s) h)
              (rw (at, dispatch) at e)
      ]
  dispatch-Sound env addr have_all s t h e =
      some-Sound _ t (Sound-Quiet s _ (with_bitfield-Quiet env addr _ s) h) e
  dispatch-Sound env addr (have piece) s t h e =
      some-Sound _ t (Sound-Quiet s _ (on_have-Quiet env addr piece s) h) e
  dispatch-Sound env addr unchoked s t h e =
      some-Sound _ t (Sound-Quiet s _ (fill_pipeline-Quiet env addr s) h) e
  dispatch-Sound env addr choked s t h e =
      some-Sound _ t (Sound-Quiet s _ (on_choked-Quiet env addr s) h) e
  dispatch-Sound env addr (block_received piece offset bytes) s t h e =
      some-Sound _ t (on_block-Sound env addr piece offset bytes s h) e
  dispatch-Sound env addr disconnected s t h e =
      some-Sound _ t (Sound-Quiet s _ (on_disconnected-Quiet env addr s) h) e
  dispatch-Sound env addr (pex_peers peers) s t h e =
      one_of s.lightspeed (Sound-Quiet s _ (found_peers-Quiet peers s) h) h e
  dispatch-Sound env addr extended_handshake s t h e = some-Sound s t h e
  dispatch-Sound env addr metadata_message s t h e = some-Sound s t h e

  pub on_event-Sound :
      (env : Env) (addr : ℕ) (event : PeerEvent) (s t : Session)
      → Sound sha1 store adopted s
      → on_event sha1 env addr event s ≡ some t
      → Sound sha1 store adopted t
  unfolding on_event
  on_event-Sound env addr event s t h e =
      let s' : Session = record s { peer_manager = handle_event addr event s.peer_manager } in
      dispatch-Sound env addr event s' t
        (Sound-Quiet s s'
          (Quiet-pool s s' refl refl refl refl (handle_event-Bounded addr event s.peer_manager)
            (handle_event-AtMost deepest addr event s.peer_manager))
          h)
        e
