-- ===== src/Engine/Session/Pipeline.antt =====
-- src/engine/session.rs: what `fill_pipeline` asks of a peer. The requests of the endgame
-- are sent elsewhere, and are in no count.
use moviehouse.Prelude.{
  ℕ, zero, suc, ◌+◌, ◌-◌, ◌≤◌, ◌≡◌, refl, arith, List, [], ◌∷◌, Bool, true, false, ◌&&◌, some, leb,
  ◌==◌, if◌then◌else◌, max, Option-cases, Bool-cases, le_or_lt, ◌⊎◌, inl, inr,
}
use moviehouse.Prelude.Assoc.{find, find-put}
use moviehouse.Piece.Bitfield.{Bitfield}
use moviehouse.Piece.Picker.{BlockRequest, pick_block}
use moviehouse.Peer.Manager.{PeerState, update_peer, send_command, peer_state}
use moviehouse.Engine.Choker.{PeerCommand, request_block}
use moviehouse.Engine.Session.{
  Choice, Env, Session, max_pipeline, requested, fill_loop, fill_pipeline,
}

abbrev pub is_request : PeerCommand → Bool
is_request (request_block _ _ _) = true
is_request _ = false

-- How many requests for a block a peer was sent.
abbrev pub requests_to : ℕ → List (ℕ × PeerCommand) → ℕ
requests_to addr [] = 0
requests_to addr ((a, cmd) ∷ sent) =
    let before = requests_to addr sent in if a == addr && is_request cmd then before + 1 else before

-- From `s` to `t` a peer, of state `st` in `s`, was sent as many requests as its count of outstanding
-- requests has grown by, which is at most `cap` then. No other peer was sent any.
pub record Asks (addr : ℕ) (st : PeerState) (cap : ℕ) (s t : Session) : Type 0 where
  pub state : PeerState
  pub there : find addr t.peer_manager.peers ≡ some state
  pub counted :
      requests_to addr t.sent + st.outstanding_requests
      ≡ requests_to addr s.sent + state.outstanding_requests
  pub capped : state.outstanding_requests ≤ cap
  pub others : (a : ℕ) → (addr == a) ≡ false → requests_to a t.sent ≡ requests_to a s.sent

Asks-none :
    (addr cap : ℕ) (st : PeerState) (s t : Session)
    → find addr s.peer_manager.peers ≡ some st
    → st.outstanding_requests ≤ cap
    → t.peer_manager ≡ s.peer_manager
    → t.sent ≡ s.sent
    → Asks addr st cap s t
Asks-none addr cap st s t e few same same_sent = record {
  state = st;
  there = rw same e;
  counted = rw same_sent refl;
  capped = few;
  others = λ a off. rw same_sent refl;
}

module _ (choice : ℕ → Choice) (addr : ℕ) (bf : Bitfield) where
  found-requested :
      (b : BlockRequest) (st : PeerState) (s : Session)
      → find addr s.peer_manager.peers ≡ some st
      → find addr (requested addr b s).peer_manager.peers
        ≡ some (record st { outstanding_requests = st.outstanding_requests + 1 })
  unfolding requested update_peer
  found-requested b st s e =
      let st' : PeerState = record st { outstanding_requests = st.outstanding_requests + 1 } in
      rw (e, update_peer) (ground (arith, find-put addr addr st' s.peer_manager.peers))

  fill_loop-Asks :
      (n cap : ℕ) (s : Session) (st : PeerState)
      → find addr s.peer_manager.peers ≡ some st
      → st.outstanding_requests + n ≤ cap
      → Asks addr st cap s (fill_loop choice addr bf n s)
  unfolding fill_loop requested
  fill_loop-Asks zero cap s st e few = Asks-none addr cap st s s e (omega arith) refl refl
  fill_loop-Asks (suc n) cap s st e few =
      let c = choice n in
      let s' : Session = record s { picker = (pick_block c.rnd c.order s.picker bf).0 } in
      let quiet : Asks addr st cap s s' = Asks-none addr cap st s s' e (omega arith) refl refl in
      elim (Option-cases (pick_block c.rnd c.order s.picker bf).1) [
        | inl nothing ↦ rw (nothing, fill_loop) quiet
        | inr (b, some_block) ↦ elim (Bool-cases (send_command c.accepted addr s.peer_manager)) [
          | inr full ↦ rw (some_block, full, fill_loop) quiet
          | inl took ↦
              let st' : PeerState = record st {
                outstanding_requests = st.outstanding_requests + 1;
              } in
              let rest =
                fill_loop-Asks n cap (requested addr b s') st' (found-requested b st s' e)
                  (omega arith) in
              rw (some_block, took, fill_loop)
                (record {
                  state = rest.state;
                  there = rest.there;
                  counted = ground (arith, rest.counted);
                  capped = rest.capped;
                  others = λ a off. ground (arith, rest.others a off);
                })
        ]
      ]

-- It does nothing, or runs its loop for what the pipeline has room for.
fill_pipeline-cases :
    (env : Env) (addr : ℕ) (s : Session) (st : PeerState)
    → find addr s.peer_manager.peers ≡ some st
    → (fill_pipeline env addr s ≡ s)
      ⊎ ((bf : Bitfield) × (fill_pipeline env addr s
            ≡ fill_loop
                (env.choice addr)
                addr
                bf
                (max_pipeline s.lightspeed (env.adaptive addr) - st.outstanding_requests)
                s))
unfolding fill_pipeline peer_state
fill_pipeline-cases env addr s st there =
    let depth = max_pipeline s.lightspeed (env.adaptive addr) in
    elim (Bool-cases st.peer_choking) [
      | inl choked ↦ inl (rw (there, choked, fill_pipeline) refl)
      | inr free ↦ elim (Bool-cases (leb depth st.outstanding_requests)) [
        | inl full ↦ inl (rw (there, free, full, fill_pipeline) refl)
        | inr more ↦ elim (Option-cases (find addr s.peer_bitfields)) [
          | inl unknown ↦ inl (rw (there, free, more, unknown, fill_pipeline) refl)
          | inr (bf, known) ↦ inr (bf, rw (there, free, more, known, fill_pipeline) refl)
        ]
      ]
    ]

-- `fill_pipeline` counts each request for a block that it sends to a peer of the pool, and stops when
-- as many are outstanding by that count as the pipeline is deep, or more were before. To no other
-- peer does it send any.
pub fill_pipeline-Asks :
    (env : Env) (addr : ℕ) (s : Session) (st : PeerState)
    → find addr s.peer_manager.peers ≡ some st
    → Asks addr st
        (max st.outstanding_requests (max_pipeline s.lightspeed (env.adaptive addr)))
        s
        (fill_pipeline env addr s)
fill_pipeline-Asks env addr s st there =
    let depth = max_pipeline s.lightspeed (env.adaptive addr) in
    let out = st.outstanding_requests in
    elim (fill_pipeline-cases env addr s st there) [
      | inl nothing ↦
          rw nothing (Asks-none addr (max out depth) st s s there (omega arith) refl refl)
      | inr (bf, filled) ↦ elim (le_or_lt out depth) [
        | inl room ↦ rw filled (
            fill_loop-Asks (env.choice addr) addr bf (depth - out) (max out depth) s st there
              (omega arith))
        | inr past ↦ rw filled (
            fill_loop-Asks (env.choice addr) addr bf (depth - out) (max out depth) s st there
              (omega arith))
      ]
    ]
