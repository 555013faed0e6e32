-- ===== src/Engine/Session/Reached.antt =====
-- src/engine/session.rs: what the states of the event loop have in common.
use moviehouse.Prelude.{ℕ, ◌+◌, ◌<◌, ◌≡◌, ◌∙◌, arith, List, Bool, true, Option, length, All}
use moviehouse.Piece.Bitfield.{holds, from_bytes}
use moviehouse.Piece.Bitfield.Updates.{is_complete_iff}
use moviehouse.Piece.Bitfield
use moviehouse.Piece.Picker.{is_complete}
use moviehouse.Piece.Store.{verify}
use moviehouse.Torrent.Metainfo.{Info}
use moviehouse.Engine.Session.{Session}
use moviehouse.Engine.Session.Downloads.{Once}
use moviehouse.Engine.Session.Reachable.{Reachable, Reachable-Sound, adopted, hashes}

module _ (sha1 : List ℕ → List ℕ) (read : ℕ → ℕ → Option (List ℕ)) {PathBuf : Type 0}
    (existing : Bool) (info : Info PathBuf) (max_peers : ℕ) (warm_peers : List ℕ)
    (lightspeed : Bool) (s : Session)
    (reachable : Reachable sha1 read existing info max_peers warm_peers lightspeed s) where
  -- In every state that the event loop reaches, each piece that was handed to the disk has the hash
  -- that the torrent gives for it, no piece was handed over twice, and the number of pieces that the
  -- session reports as done is the number of those found on the disk at the start and of those handed
  -- over since.
  pub writes_sound :
      All (λ (i, bytes). verify sha1 (hashes info) i bytes ≡ true) s.writes
      × Once s.writes
      × (s.pieces_done ≡ adopted sha1 read existing info + length s.writes)
  writes_sound =
      let h = Reachable-Sound sha1 read existing info max_peers warm_peers lightspeed s reachable in
      (h.verified, h.once, h.done ∙ h.counted)

  -- When the event loop ends because the download is complete, every piece of the torrent is owned,
  -- and the pieces found on the disk at the start and those handed over since are as many as the
  -- torrent has.
  pub complete_all :
      is_complete s.picker ≡ true
      → ((i : ℕ) → i < length info.pieces → holds s.picker.owned i ≡ true)
        × (adopted sha1 read existing info + length s.writes ≡ length info.pieces)
  unfolding is_complete Bitfield.is_complete
  complete_all whole =
      let h = Reachable-Sound sha1 read existing info max_peers warm_peers lightspeed s reachable in
      (
        λ i lt.
            (is_complete_iff s.picker.owned h.fit.owned_valid).0 whole i
              (omega (arith, h.fit.owned_size, h.size)),
        ground (arith, h.counted, h.fit.counted, h.fit.owned_size, h.size),
      )
