-- ===== src/Engine/Session/Run.antt =====
-- src/engine/session.rs: the event loop refines the downloads of a torrent.
use moviehouse.Prelude.{
  ℕ, ◌≡◌, refl, List, Bool, true, false, Option, some, Option-cases, inl, inr, if◌then◌else◌,
}
use mathlib.Core.Path.{subst}
use moviehouse.Piece.Bitfield.{from_bytes}
use moviehouse.Peer.Manager.{
  PeerEvent, handle_event, connected, unchoked, choked, have, bitfield_received, have_all,
  block_received, extended_handshake, metadata_message, pex_peers, disconnected,
}
use moviehouse.Peer.Manager.Bounds.{handle_event-Bounded}
use moviehouse.Peer.Manager.Asked.{handle_event-AtMost}
use moviehouse.Piece.Store.{PieceStore}
use moviehouse.Torrent.Metainfo.{Info}
use moviehouse.Engine.Session.{Env, Session}
use moviehouse.Engine.Session.Start.{start}
use moviehouse.Engine.Session.Events.{dispatch, on_event}
use moviehouse.Engine.Session.Quiet.{deepest, Quiet, Quiet-pool, Quiet-refl, fill_pipeline-Quiet}
use moviehouse.Engine.Session.Arms.{
  on_connected-Quiet, with_bitfield-Quiet, on_have-Quiet, on_choked-Quiet, on_disconnected-Quiet,
  found_peers-Quiet, on_peers-Quiet, on_connect_tick-Quiet, on_choke_tick-Quiet,
}
use moviehouse.Engine.Session.Downloads.{Sound, Sound-Quiet}
use moviehouse.Engine.Session.Reachable.{
  Reachable, started, event, discovered, connect_tick, choke_tick, Reachable-Sound, adopted, hashes,
}
use moviehouse.Engine.Session.Refine.{
  Gains, Downloads, nothing, then_gains, view, Gains-Quiet, Gains-before, on_block-Gains,
}

module _ (sha1 : List ℕ → List ℕ) (store : PieceStore) (adopted : ℕ) where
  some-Gains :
      (s u t : Session)
      → Gains sha1 store (view s) (view u)
      → some u ≡ some t
      → Gains sha1 store (view s) (view t)
  some-Gains s u t h e =
      let same : u ≡ t = cc e in subst (λ x. Gains sha1 store (view s) (view x)) same h

  Quiet-step : (s u t : Session) → Quiet s u → some u ≡ some t → Gains sha1 store (view s) (view t)
  Quiet-step s u t q e = some-Gains s u t (Gains-Quiet sha1 store adopted s u q) e

  one_of :
      (b : Bool) (s u t : Session)
      → Quiet s u
      → (if b then some u else some s) ≡ some t
      → Gains sha1 store (view s) (view t)
  one_of true s u t q e = Quiet-step s u t q e
  one_of false s u t q e = Quiet-step s s t (Quiet-refl s) e

  dispatch-Gains :
      (env : Env) (addr : ℕ) (e : PeerEvent) (s t : Session)
      → Sound sha1 store adopted s
      → dispatch sha1 env addr e s ≡ some t
      → Gains sha1 store (view s) (view t)
  unfolding dispatch
  dispatch-Gains env addr (connected supports) s t h at =
      Quiet-step s _ t (on_connected-Quiet env addr supports s) at
  dispatch-Gains env addr (bitfield_received bytes) s t h at =
      elim (Option-cases (from_bytes bytes s.num_pieces)) [
        | inl short ↦ absurd (cc (rw (short, dispatch) at at))
        | inr (bf, long) ↦
            Quiet-step s _ t (with_bitfield-Quiet env addr bf s) (rw (long, dispatch) at at)
      ]
  dispatch-Gains env addr have_all s t h at = Quiet-step s _ t (with_bitfield-Quiet env addr _ s) at
  dispatch-Gains env addr (have piece) s t h at =
      Quiet-step s _ t (on_have-Quiet env addr piece s) at
  dispatch-Gains env addr unchoked s t h at = Quiet-step s _ t (fill_pipeline-Quiet env addr s) at
  dispatch-Gains env addr choked s t h at = Quiet-step s _ t (on_choked-Quiet env addr s) at
  dispatch-Gains env addr (block_received piece offset bytes) s t h at =
      some-Gains s _ t (on_block-Gains sha1 store adopted env addr piece offset bytes s h) at
  dispatch-Gains env addr disconnected s t h at =
      Quiet-step s _ t (on_disconnected-Quiet env addr s) at
  dispatch-Gains env addr (pex_peers peers) s t h at =
      one_of s.lightspeed s _ t (found_peers-Quiet peers s) at
  dispatch-Gains env addr extended_handshake s t h at = Quiet-step s s t (Quiet-refl s) at
  dispatch-Gains env addr metadata_message s t h at = Quiet-step s s t (Quiet-refl s) at

  on_event-Gains :
      (env : Env) (addr : ℕ) (e : PeerEvent) (s t : Session)
      → Sound sha1 store adopted s
      → on_event sha1 env addr e s ≡ some t
      → Gains sha1 store (view s) (view t)
  unfolding on_event
  on_event-Gains env addr e s t h at =
      let s' : Session = record s { peer_manager = handle_event addr e s.peer_manager } in
      let q : Quiet s s' =
        Quiet-pool s s' refl refl refl refl (handle_event-Bounded addr e s.peer_manager)
          (handle_event-AtMost deepest addr e s.peer_manager) in
      Gains-before sha1 store adopted s s' t q
        (dispatch-Gains env addr e s' t (Sound-Quiet sha1 store adopted s s' q h) at)

module _ (sha1 : List ℕ → List ℕ) (read : ℕ → ℕ → Option (List ℕ)) {PathBuf : Type 0}
    (existing : Bool) (info : Info PathBuf) (max_peers : ℕ) (warm_peers : List ℕ)
    (lightspeed : Bool) where
  -- Whatever events come in whatever order, the session only does what a download may do: each turn of
  -- the event loop leaves the pieces as they are or adds one piece, which was missing, which the
  -- torrent has, and whose data has the hash that the torrent gives for it.
  pub run_refines :
      (s : Session)
      → Reachable sha1 read existing info max_peers warm_peers lightspeed s
      → Downloads sha1
          (hashes info)
          (view (start sha1 read existing info max_peers warm_peers lightspeed))
          (view s)
  run_refines s started = nothing (view s)
  run_refines s (event env addr e s₀ t unfinished at r) =
      then_gains _ (view s₀) (view s) (run_refines s₀ r) (
        on_event-Gains sha1 (hashes info) (adopted sha1 read existing info) env addr e s₀ s
          (Reachable-Sound sha1 read existing info max_peers warm_peers lightspeed s₀ r) at)
  run_refines s (discovered peers s₀ unfinished r) =
      then_gains _ (view s₀) (view s) (run_refines s₀ r)
        (Gains-Quiet sha1 (hashes info) 0 s₀ s (on_peers-Quiet peers s₀))
  run_refines s (connect_tick env s₀ unfinished r) =
      then_gains _ (view s₀) (view s) (run_refines s₀ r)
        (Gains-Quiet sha1 (hashes info) 0 s₀ s (on_connect_tick-Quiet env s₀))
  run_refines s (choke_tick env choose s₀ unfinished r) =
      then_gains _ (view s₀) (view s) (run_refines s₀ r)
        (Gains-Quiet sha1 (hashes info) 0 s₀ s (on_choke_tick-Quiet env choose s₀))
