-- ===== src/Engine/Session/Arms.antt =====
-- src/engine/session.rs: the arms of the event loop that complete no piece.
use moviehouse.Prelude.{
  ℕ, ◌+◌, ◌%◌, ◌^◌, ◌==◌, ◌≤◌, refl, arith, List, [], ◌∷◌, Bool, true, none, some, Option,
  Bool-cases, Option-cases, inl, inr,
}
use moviehouse.Prelude.Assoc.{find, put, remove}
use moviehouse.Piece.Bitfield
use moviehouse.Piece.Bitfield.{Bitfield}
use moviehouse.Piece.Picker.{
  PiecePicker, BlockRequest, is_endgame, endgame_requests, peer_disconnected,
}
use moviehouse.Piece.Picker.Kept.{
  Kept, Kept-refl, peer_has_bitfield-Kept, peer_has_piece-Kept, peer_disconnected-Kept,
}
use moviehouse.Peer.Manager.{
  PeerState, peer_state, send_command, connected_peers, add_peers, connect_pending, requeue_peer,
}
use moviehouse.Peer.Manager.Bounds.{
  update_peer-Bounded, add_peers-Bounded, connect_pending-Bounded, requeue_peer-Bounded,
}
use moviehouse.Peer.Manager.Asked.{
  update_peer-AtMost, add_peers-AtMost, connect_pending-AtMost, requeue_peer-AtMost,
}
use moviehouse.Engine.Choker.{
  PeerCommand, run_choking_algorithm, send_interested, send_extended_handshake,
}
use moviehouse.Engine.Session.{Env, Session, send, request_of, release_peer_blocks}
use moviehouse.Engine.Session.Events.{
  with_state, send_each, except, send_all, cancel_others, piece_cancels, cancel_piece,
  request_until_full, blast_each, endgame_blast, on_connected, with_bitfield, on_have, on_choked,
  settle, on_disconnected, on_peers, on_connect_tick, on_choke_tick,
}
use moviehouse.Engine.Session.Quiet.{
  deepest, Quiet, Quiet-refl, Quiet-trans, Quiet-picker, Quiet-pool, send-Quiet,
  fill_pipeline-Quiet, refill_all_peers-Quiet, release_peer_blocks-Quiet,
}

with_state-Quiet :
    (addr : ℕ) (f : PeerState → PeerState) (s : Session)
    → ((st : PeerState) → st.outstanding_requests ≤ deepest → (f st).outstanding_requests ≤ deepest)
    → Quiet s (with_state addr f s)
unfolding with_state
with_state-Quiet addr f s h =
    Quiet-pool s _ refl refl refl refl (update_peer-Bounded addr f s.peer_manager)
      (update_peer-AtMost deepest addr f s.peer_manager (λ st e few. h st few))

-- The bitfield of a peer that is gone is taken off the availabilities.
forgotten-Kept :
    (p : PiecePicker) (known : Option Bitfield)
    → Kept p (elim known [ none ↦ p | some bf ↦ peer_disconnected p bf ])
forgotten-Kept p none = Kept-refl p
forgotten-Kept p (some bf) = peer_disconnected-Kept p bf

module _ (env : Env) where
  pub send_each-Quiet :
      (cmd : PeerCommand) (addrs : List ℕ) (s : Session) → Quiet s (send_each env cmd addrs s)
  unfolding send_each
  send_each-Quiet cmd [] s = Quiet-refl s
  send_each-Quiet cmd (addr ∷ addrs) s =
      Quiet-trans s (send env addr cmd s) _ (send-Quiet env addr cmd s)
        (send_each-Quiet cmd addrs (send env addr cmd s))

  send_all-Quiet : (cmds : List (ℕ × PeerCommand)) (s : Session) → Quiet s (send_all env cmds s)
  unfolding send_all
  send_all-Quiet [] s = Quiet-refl s
  send_all-Quiet ((addr, cmd) ∷ cmds) s =
      Quiet-trans s (send env addr cmd s) _ (send-Quiet env addr cmd s)
        (send_all-Quiet cmds (send env addr cmd s))

  pub cancel_others-Quiet :
      (addr : ℕ) (cmd : PeerCommand) (s : Session) → Quiet s (cancel_others env addr cmd s)
  unfolding cancel_others
  cancel_others-Quiet addr cmd s = elim (Bool-cases (is_endgame s.picker)) [
    | inl late ↦ rw late (send_each-Quiet cmd (except addr (connected_peers s.peer_manager)) s)
    | inr early ↦ rw early (Quiet-refl s)
  ]

  pub cancel_piece-Quiet : (addr piece : ℕ) (s : Session) → Quiet s (cancel_piece env addr piece s)
  unfolding cancel_piece
  cancel_piece-Quiet addr piece s = elim (Bool-cases (is_endgame s.picker)) [
    | inl late ↦ rw late (
        send_all-Quiet
          (piece_cancels piece (except addr (connected_peers s.peer_manager)) s.peer_pending) s)
    | inr early ↦ rw early (Quiet-refl s)
  ]

  request_until_full-Quiet :
      (addr : ℕ) (blocks : List BlockRequest) (s : Session)
      → Quiet s (request_until_full env addr blocks s)
  unfolding request_until_full
  request_until_full-Quiet addr [] s = Quiet-refl s
  request_until_full-Quiet addr (b ∷ blocks) s =
      elim (Bool-cases (send_command (env.accepts addr (request_of b)) addr s.peer_manager)) [
        | inl took ↦ rw took (
            Quiet-trans s (send env addr (request_of b) s) _ (send-Quiet env addr (request_of b) s)
              (request_until_full-Quiet addr blocks (send env addr (request_of b) s)))
        | inr full ↦ rw full (Quiet-refl s)
      ]

  blast_each-Quiet : (addrs : List ℕ) (s : Session) → Quiet s (blast_each env addrs s)
  unfolding blast_each peer_state
  blast_each-Quiet [] s = Quiet-refl s
  blast_each-Quiet (addr ∷ addrs) s = elim (Option-cases (find addr s.peer_manager.peers)) [
    | inl gone ↦ rw (gone, blast_each) (blast_each-Quiet addrs s)
    | inr (st, there) ↦ elim (Bool-cases st.peer_choking) [
      | inl choked ↦ rw (there, choked, blast_each) (blast_each-Quiet addrs s)
      | inr free ↦ elim (Option-cases (find addr s.peer_bitfields)) [
        | inl unknown ↦ rw (there, free, unknown, blast_each) (blast_each-Quiet addrs s)
        | inr (bf, known) ↦
            let blocks = endgame_requests s.picker bf in
            rw (there, free, known, blast_each)
              (Quiet-trans s (request_until_full env addr blocks s) _
                (request_until_full-Quiet addr blocks s)
                (blast_each-Quiet addrs (request_until_full env addr blocks s)))
      ]
    ]
  ]

  pub endgame_blast-Quiet : (s : Session) → Quiet s (endgame_blast env s)
  unfolding endgame_blast
  endgame_blast-Quiet s = elim (Bool-cases (is_endgame s.picker)) [
    | inl late ↦ rw late (blast_each-Quiet (connected_peers s.peer_manager) s)
    | inr early ↦ rw early (Quiet-refl s)
  ]

  pub on_connected-Quiet :
      (addr : ℕ) (supports : Bool) (s : Session) → Quiet s (on_connected env addr supports s)
  unfolding on_connected
  on_connected-Quiet addr supports s =
      let known : Session = record s {
        peer_bitfields = put addr (Bitfield.new s.num_pieces) s.peer_bitfields;
        peer_pending = put addr [] s.peer_pending;
      } in
      let told =
        with_state addr (λ st. record st { am_interested = true })
          (send env addr send_interested known) in
      let start : Quiet s told =
        Quiet-trans s known told (Quiet-picker s known (Kept-refl s.picker) refl refl refl refl) (
          Quiet-trans known (send env addr send_interested known) told
            (send-Quiet env addr send_interested known)
            (with_state-Quiet addr _ _ (λ st few. few))) in
      elim (Bool-cases supports) [
        | inl extended ↦
            rw extended
              (Quiet-trans s told _ start (send-Quiet env addr send_extended_handshake told))
        | inr plain ↦ rw plain start
      ]

  pub with_bitfield-Quiet :
      (addr : ℕ) (bf : Bitfield) (s : Session) → Quiet s (with_bitfield env addr bf s)
  unfolding with_bitfield
  with_bitfield-Quiet addr bf s =
      Quiet-trans s _ _ (Quiet-picker s _ (peer_has_bitfield-Kept s.picker bf) refl refl refl refl)
        (fill_pipeline-Quiet env addr _)

  pub on_have-Quiet : (addr piece : ℕ) (s : Session) → Quiet s (on_have env addr piece s)
  unfolding on_have
  on_have-Quiet addr piece s =
      Quiet-trans s _ _ (Quiet-picker s _ (peer_has_piece-Kept s.picker piece) refl refl refl refl)
        (fill_pipeline-Quiet env addr _)

  pub on_choked-Quiet : (addr : ℕ) (s : Session) → Quiet s (on_choked env addr s)
  unfolding on_choked
  on_choked-Quiet addr s =
      let released = release_peer_blocks addr s in
      Quiet-trans s released _ (release_peer_blocks-Quiet addr s) (
        Quiet-trans released _ _ (with_state-Quiet addr _ released (λ st few. omega arith))
          (refill_all_peers-Quiet env _))

  pub on_disconnected-Quiet : (addr : ℕ) (s : Session) → Quiet s (on_disconnected env addr s)
  unfolding on_disconnected
  on_disconnected-Quiet addr s =
      let released = release_peer_blocks addr s in
      let moved : Session = record released {
        peer_bitfields = remove addr released.peer_bitfields;
        peer_pending = remove addr released.peer_pending;
        peer_manager = requeue_peer addr released.peer_manager;
      } in
      let gone : Session = record moved {
        picker = elim (find addr released.peer_bitfields) [
          | none ↦ released.picker
          | some bf ↦ peer_disconnected released.picker bf
        ];
      } in
      Quiet-trans s released _ (release_peer_blocks-Quiet addr s) (
        Quiet-trans released moved _
          (Quiet-pool released moved refl refl refl refl
            (requeue_peer-Bounded addr released.peer_manager)
            (requeue_peer-AtMost deepest addr released.peer_manager))
          (Quiet-trans moved gone _
            (Quiet-picker moved gone
              (forgotten-Kept released.picker (find addr released.peer_bitfields)) refl refl refl
              refl)
            (refill_all_peers-Quiet env gone)))

pub settle-Quiet : (addr piece offset : ℕ) (s : Session) → Quiet s (settle addr piece offset s)
unfolding settle
settle-Quiet addr piece offset s = elim (Option-cases (find addr s.peer_pending)) [
  | inl gone ↦ rw (gone, settle) (with_state-Quiet addr _ s (λ st few. omega arith))
  | inr (blocks, e) ↦
      rw (e, settle)
        (Quiet-trans s _ _ (Quiet-picker s _ (Kept-refl s.picker) refl refl refl refl)
          (with_state-Quiet addr _ _ (λ st few. omega arith)))
]

-- More peers are known and connections to them are being made.
pub found_peers-Quiet :
    (peers : List ℕ) (s : Session)
    → Quiet s (record s { peer_manager = connect_pending (add_peers peers s.peer_manager) })
found_peers-Quiet peers s =
    Quiet-pool s _ refl refl refl refl
      (λ b. connect_pending-Bounded _ (add_peers-Bounded peers s.peer_manager b))
      (λ a. connect_pending-AtMost deepest _ (add_peers-AtMost deepest peers s.peer_manager a))

pub on_peers-Quiet : (peers : List ℕ) (s : Session) → Quiet s (on_peers peers s)
unfolding on_peers
on_peers-Quiet peers s = found_peers-Quiet peers s

pub on_connect_tick-Quiet : (env : Env) (s : Session) → Quiet s (on_connect_tick env s)
unfolding on_connect_tick
on_connect_tick-Quiet env s =
    Quiet-trans s _ _
      (Quiet-pool s (record s { peer_manager = connect_pending s.peer_manager }) refl refl refl refl
        (connect_pending-Bounded s.peer_manager) (connect_pending-AtMost deepest s.peer_manager))
      (endgame_blast-Quiet env _)

pub on_choke_tick-Quiet :
    (env : Env) (choose : List ℕ → Option ℕ) (s : Session) → Quiet s (on_choke_tick env choose s)
unfolding on_choke_tick
on_choke_tick-Quiet env choose s =
    let counter = (s.optimistic_counter + 1) % 2 ^ 32 in
    let s' : Session = record s { optimistic_counter = counter } in
    Quiet-trans s s' _ (Quiet-picker s s' (Kept-refl s.picker) refl refl refl refl)
      (send_all-Quiet env (run_choking_algorithm choose s.peer_manager (counter % 3 == 0)) s')
