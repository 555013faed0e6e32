-- ===== src/Engine/Session/Reachable.antt =====
-- src/engine/session.rs: the states that the event loop reaches.
use moviehouse.Prelude.{
  ℕ, ◌≡◌, refl, arith, List, Bool, false, Option, some, length, Bool-cases, inl, inr,
}
use moviehouse.Prelude.Assoc.{contains_key}
use moviehouse.Piece.Picker.{new, is_complete}
use moviehouse.Piece.Picker.Kept.{Fit}
use moviehouse.Piece.Picker.Verified.{new-Fit}
use moviehouse.Piece.Store.{PieceStore}
use moviehouse.Peer.Manager.{PeerEvent, PeerState}
use moviehouse.Peer.Manager
use moviehouse.Peer.Manager.Bounds.{add_peers-Bounded, new-Bounded}
use moviehouse.Peer.Manager.Asked.{add_peers-AtMost, new-AtMost}
use moviehouse.Torrent.Metainfo.{Info}
use moviehouse.Engine.Resume.Adopted.{verify_on_disk-Adopts}
use moviehouse.Engine.Session.{Env, Session}
use moviehouse.Engine.Session.Start.{resumed, start}
use moviehouse.Engine.Session.Events.{on_event, on_peers, on_connect_tick, on_choke_tick}
use moviehouse.Engine.Session.Quiet.{deepest}
use moviehouse.Engine.Session.Arms.{on_peers-Quiet, on_connect_tick-Quiet, on_choke_tick-Quiet}
use moviehouse.Engine.Session.Downloads.{Sound, Sound-Quiet, on_event-Sound}

-- The hashes of a torrent, and the number of its pieces that were found on the disk at the start.
abbrev pub hashes : {PathBuf : Type 0} → Info PathBuf → PieceStore
hashes info = record { piece_hashes = info.pieces }

abbrev pub adopted :
    (sha1 : List ℕ → List ℕ) (read : ℕ → ℕ → Option (List ℕ)) {PathBuf : Type 0}
    → Bool
    → Info PathBuf
    → ℕ
adopted sha1 read existing info = (resumed sha1 read existing info).1

module _ (sha1 : List ℕ → List ℕ) (read : ℕ → ℕ → Option (List ℕ)) {PathBuf : Type 0}
    (existing : Bool) (info : Info PathBuf) (max_peers : ℕ) (warm_peers : List ℕ)
    (lightspeed : Bool) where
  -- The turns of the loop, in any order and with any answers of what the model leaves open. A turn
  -- starts only while the download is not complete, and it does not panic.
  pub data Reachable : Session → Type 0 where
    started : Reachable (start sha1 read existing info max_peers warm_peers lightspeed)
    event :
        (env : Env) (addr : ℕ) (e : PeerEvent) (s t : Session)
        → is_complete s.picker ≡ false
        → on_event sha1 env addr e s ≡ some t
        → Reachable s
        → Reachable t
    discovered :
        (peers : List ℕ) (s : Session)
        → is_complete s.picker ≡ false
        → Reachable s
        → Reachable (on_peers peers s)
    connect_tick :
        (env : Env) (s : Session)
        → is_complete s.picker ≡ false
        → Reachable s
        → Reachable (on_connect_tick env s)
    choke_tick :
        (env : Env) (choose : List ℕ → Option ℕ) (s : Session)
        → is_complete s.picker ≡ false
        → Reachable s
        → Reachable (on_choke_tick env choose s)

  resumed-Fit :
      Fit (resumed sha1 read existing info).0
      × ((resumed sha1 read existing info).0.num_pieces ≡ length info.pieces)
      × ((resumed sha1 read existing info).0.verified_count ≡ adopted sha1 read existing info)
  unfolding resumed new
  resumed-Fit = elim (Bool-cases existing) [
    | inr fresh ↦
        rw fresh (new-Fit (length info.pieces) info.piece_length info.total_length, refl, refl)
    | inl some_file ↦
        let a = verify_on_disk-Adopts sha1 read (record { piece_hashes = info.pieces }) info in
        rw some_file (a.fit, a.size, a.counted)
  ]

  start-Sound :
      Sound sha1
        (hashes info)
        (adopted sha1 read existing info)
        (start sha1 read existing info max_peers warm_peers lightspeed)
  unfolding start contains_key
  start-Sound = record {
    fit = resumed-Fit.0;
    bounded = add_peers-Bounded warm_peers (Manager.new max_peers) (new-Bounded max_peers);
    asked =
        add_peers-AtMost deepest warm_peers (Manager.new max_peers) (new-AtMost deepest max_peers);
    same_store = refl;
    size = resumed-Fit.1;
    verified = tt;
    once = tt;
    owned = λ i on. absurd (cc on);
    counted = omega (arith, resumed-Fit.2);
    done = omega (arith, resumed-Fit.2);
  }

  pub Reachable-Sound :
      (s : Session) → Reachable s → Sound sha1 (hashes info) (adopted sha1 read existing info) s
  Reachable-Sound s started = start-Sound
  Reachable-Sound s (event env addr e s₀ t unfinished at r) =
      on_event-Sound sha1 (hashes info) (adopted sha1 read existing info) env addr e s₀ s
        (Reachable-Sound s₀ r) at
  Reachable-Sound s (discovered peers s₀ unfinished r) =
      Sound-Quiet sha1 (hashes info) (adopted sha1 read existing info) s₀ s
        (on_peers-Quiet peers s₀) (Reachable-Sound s₀ r)
  Reachable-Sound s (connect_tick env s₀ unfinished r) =
      Sound-Quiet sha1 (hashes info) (adopted sha1 read existing info) s₀ s
        (on_connect_tick-Quiet env s₀) (Reachable-Sound s₀ r)
  Reachable-Sound s (choke_tick env choose s₀ unfinished r) =
      Sound-Quiet sha1 (hashes info) (adopted sha1 read existing info) s₀ s
        (on_choke_tick-Quiet env choose s₀) (Reachable-Sound s₀ r)
