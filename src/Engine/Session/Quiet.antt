-- ===== src/Engine/Session/Quiet.antt =====
-- src/engine/session.rs: the functions that ask peers for blocks complete no piece.
use moviehouse.Prelude.{
  ℕ, zero, suc, ◌+◌, ◌-◌, ◌≤◌, ◌≡◌, refl, ◌∙◌, arith, List, [], ◌∷◌, Bool, some, leb, Bool-cases,
  Option-cases, inl, inr,
}
use moviehouse.Prelude.Assoc.{find}
use moviehouse.Piece.Bitfield.{Bitfield}
use moviehouse.Piece.Picker.{PiecePicker, BlockRequest, pick_block, unassign_block}
use moviehouse.Piece.Picker.Kept.{Kept, Kept-refl, Kept-trans, pick_block-Kept, unassign_block-Kept}
use moviehouse.Peer.Manager.{PeerState, peer_state, send_command, connected_peers}
use moviehouse.Peer.Manager.Bounds.{Bounded, update_peer-Bounded}
use moviehouse.Peer.Manager.Asked.{AtMost, update_peer-AtMost, update_peer-found}
use moviehouse.Engine.Choker.{PeerCommand}
use moviehouse.Engine.Session.{
  Choice, Env, Session, max_pipeline, send, requested, fill_loop, fill_pipeline, refill_each,
  refill_all_peers, release_blocks, release_peer_blocks,
}

-- The greatest depth of a pipeline.
abbrev pub deepest : ℕ
deepest = 256

-- No piece was completed, and the picker and the pool stay within their invariants.
pub record Quiet (s t : Session) : Type 0 where
  pub kept : Kept s.picker t.picker
  pub same_store : t.piece_store ≡ s.piece_store
  pub same_writes : t.writes ≡ s.writes
  pub same_done : t.pieces_done ≡ s.pieces_done
  pub bounded : Bounded s.peer_manager → Bounded t.peer_manager
  pub asked : AtMost deepest s.peer_manager.peers → AtMost deepest t.peer_manager.peers

pub Quiet-refl : (s : Session) → Quiet s s
Quiet-refl s = record {
  kept = Kept-refl s.picker;
  same_store = refl;
  same_writes = refl;
  same_done = refl;
  bounded = λ b. b;
  asked = λ h. h;
}

pub Quiet-trans : (s t u : Session) → Quiet s t → Quiet t u → Quiet s u
Quiet-trans s t u h k = record {
  kept = Kept-trans s.picker t.picker u.picker h.kept k.kept;
  same_store = k.same_store ∙ h.same_store;
  same_writes = k.same_writes ∙ h.same_writes;
  same_done = k.same_done ∙ h.same_done;
  bounded = λ b. k.bounded (h.bounded b);
  asked = λ a. k.asked (h.asked a);
}

-- A change of the picker, and of what the invariants do not read.
pub Quiet-picker :
    (s t : Session)
    → Kept s.picker t.picker
    → t.piece_store ≡ s.piece_store
    → t.writes ≡ s.writes
    → t.pieces_done ≡ s.pieces_done
    → t.peer_manager ≡ s.peer_manager
    → Quiet s t
Quiet-picker s t k es ew ed em = record {
  kept = k;
  same_store = es;
  same_writes = ew;
  same_done = ed;
  bounded = λ b. rw em b;
  asked = λ a. rw em a;
}

-- A change of the pool, and of what the invariants do not read.
pub Quiet-pool :
    (s t : Session)
    → t.picker ≡ s.picker
    → t.piece_store ≡ s.piece_store
    → t.writes ≡ s.writes
    → t.pieces_done ≡ s.pieces_done
    → (Bounded s.peer_manager → Bounded t.peer_manager)
    → (AtMost deepest s.peer_manager.peers → AtMost deepest t.peer_manager.peers)
    → Quiet s t
Quiet-pool s t ep es ew ed b a = record {
  kept = rw ep (Kept-refl s.picker);
  same_store = es;
  same_writes = ew;
  same_done = ed;
  bounded = b;
  asked = a;
}

pub send-Quiet :
    (env : Env) (addr : ℕ) (cmd : PeerCommand) (s : Session) → Quiet s (send env addr cmd s)
unfolding send
send-Quiet env addr cmd s =
    elim (Bool-cases (send_command (env.accepts addr cmd) addr s.peer_manager)) [
      | inl took ↦ rw took (Quiet-picker s _ (Kept-refl s.picker) refl refl refl refl)
      | inr full ↦ rw full (Quiet-refl s)
    ]

-- The request that the loop makes leaves room for those that are left.
abbrev Room : ℕ → ℕ → Session → Type 0
Room addr n s =
    (st : PeerState)
    → find addr s.peer_manager.peers ≡ some st
    → st.outstanding_requests + n ≤ deepest

abbrev more_requests : PeerState → PeerState
more_requests st = record st { outstanding_requests = st.outstanding_requests + 1 }

module _ (addr n : ℕ) (b : BlockRequest) (s : Session) (room : Room addr (suc n) s) where
  Room-requested : Room addr n (requested addr b s)
  unfolding requested
  Room-requested st' e =
      let (st, there, more) = update_peer-found addr more_requests s.peer_manager st' e in
      rw (← more) (omega (arith, room st there))

  requested-Quiet : Quiet s (requested addr b s)
  unfolding requested
  requested-Quiet =
      Quiet-pool s _ refl refl refl refl (update_peer-Bounded addr more_requests s.peer_manager) (
        update_peer-AtMost deepest addr more_requests s.peer_manager
          (λ st e few. omega (arith, room st e)))

fill_loop-Quiet :
    (choice : ℕ → Choice) (addr : ℕ) (bf : Bitfield) (n : ℕ) (s : Session)
    → Room addr n s
    → Quiet s (fill_loop choice addr bf n s)
unfolding fill_loop
fill_loop-Quiet choice addr bf zero s room = Quiet-refl s
fill_loop-Quiet choice addr bf (suc n) s room =
    let c = choice n in
    let s' : Session = record s { picker = (pick_block c.rnd c.order s.picker bf).0 } in
    let picked : Quiet s s' =
      Quiet-picker s s' (pick_block-Kept c.rnd c.order s.picker bf) refl refl refl refl in
    elim (Option-cases (pick_block c.rnd c.order s.picker bf).1) [
      | inl nothing ↦ rw (nothing, fill_loop) picked
      | inr (b, some_block) ↦ elim (Bool-cases (send_command c.accepted addr s.peer_manager)) [
        | inr full ↦ rw (some_block, full, fill_loop) picked
        | inl took ↦
            rw (some_block, took, fill_loop)
              (Quiet-trans s s' _ picked (
                Quiet-trans s' (requested addr b s') _ (requested-Quiet addr n b s' room) (
                  fill_loop-Quiet choice addr bf n (requested addr b s')
                    (Room-requested addr n b s' room))))
      ]
    ]

max_pipeline-le : (lightspeed : Bool) (adaptive : ℕ) → max_pipeline lightspeed adaptive ≤ deepest
unfolding max_pipeline
max_pipeline-le lightspeed adaptive = ground arith

pub fill_pipeline-Quiet : (env : Env) (addr : ℕ) (s : Session) → Quiet s (fill_pipeline env addr s)
unfolding fill_pipeline peer_state
fill_pipeline-Quiet env addr s = elim (Option-cases (find addr s.peer_manager.peers)) [
  | inl gone ↦ rw (gone, fill_pipeline) (Quiet-refl s)
  | inr (st, there) ↦ elim (Bool-cases st.peer_choking) [
    | inl choked ↦ rw (there, choked, fill_pipeline) (Quiet-refl s)
    | inr free ↦
        let depth = max_pipeline s.lightspeed (env.adaptive addr) in
        elim (Bool-cases (leb depth st.outstanding_requests)) [
          | inl full ↦ rw (there, free, full, fill_pipeline) (Quiet-refl s)
          | inr more ↦ elim (Option-cases (find addr s.peer_bitfields)) [
            | inl unknown ↦ rw (there, free, more, unknown, fill_pipeline) (Quiet-refl s)
            | inr (bf, known) ↦
                let room : Room addr (depth - st.outstanding_requests) s = λ st' e.
                  let same : st ≡ st' = cc (there, e) in
                  rw (← same) (ground (arith, max_pipeline-le s.lightspeed (env.adaptive addr))) in
                rw (there, free, more, known, fill_pipeline)
                  (fill_loop-Quiet (env.choice addr) addr bf _ s room)
          ]
        ]
  ]
]

refill_each-Quiet : (env : Env) (addrs : List ℕ) (s : Session) → Quiet s (refill_each env addrs s)
unfolding refill_each
refill_each-Quiet env [] s = Quiet-refl s
refill_each-Quiet env (addr ∷ addrs) s =
    Quiet-trans s (fill_pipeline env addr s) _ (fill_pipeline-Quiet env addr s)
      (refill_each-Quiet env addrs (fill_pipeline env addr s))

pub refill_all_peers-Quiet : (env : Env) (s : Session) → Quiet s (refill_all_peers env s)
unfolding refill_all_peers
refill_all_peers-Quiet env s = refill_each-Quiet env (connected_peers s.peer_manager) s

release_blocks-Kept :
    (blocks : List BlockRequest) (p : PiecePicker) → Kept p (release_blocks blocks p)
unfolding release_blocks
release_blocks-Kept [] p = Kept-refl p
release_blocks-Kept (b ∷ blocks) p =
    Kept-trans p _ _ (unassign_block-Kept p b.piece_index b.offset)
      (release_blocks-Kept blocks (unassign_block p b.piece_index b.offset))

pub release_peer_blocks-Quiet : (addr : ℕ) (s : Session) → Quiet s (release_peer_blocks addr s)
unfolding release_peer_blocks
release_peer_blocks-Quiet addr s = elim (Option-cases (find addr s.peer_pending)) [
  | inl gone ↦ rw (gone, release_peer_blocks) (Quiet-refl s)
  | inr (blocks, e) ↦
      rw (e, release_peer_blocks)
        (Quiet-picker s _ (release_blocks-Kept blocks s.picker) refl refl refl refl)
]
