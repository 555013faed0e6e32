-- ===== src/Examples/Peer.antt =====
-- src/peer/: the theorems on the wire protocol, at concrete messages.
use moviehouse.Prelude.{◌≡◌, refl, List, [], ◌∷◌, ◌++◌, replicate, none, length, ok, arith, put_u32}
use moviehouse.Peer.Message
use moviehouse.Peer.Message.{PeerMessage, have, request, unchoke, piece, choke}
use moviehouse.Peer.Message.Canonical.{Reads, decode-Reads}
use moviehouse.Peer.Codec
use moviehouse.Peer.Codec.{frame_too_large}
use moviehouse.Peer.Codec.Frames.{
  frames, encode_all-frames, AllSendable, Receives, Receives-encode_all,
}
use moviehouse.Peer.Codec.Partial.{decode-prefix}
use moviehouse.Peer.Handshake.{Handshake, IsSized, to_bytes, from_bytes}
use moviehouse.Peer.Handshake.RoundTrip.{from_bytes-to_bytes, to_bytes-from_bytes}

abbrev batch : List PeerMessage
batch = unchoke ∷ have 7 ∷ request 1 16_384 16_384 ∷ piece 1 0 (1 ∷ 2 ∷ 3 ∷ []) ∷ []

batch_sendable : AllSendable batch
unfolding Message.wire_len
batch_sendable = omega arith

Receives-encode_all_example : Receives (frames batch ++ 0 ∷ 0 ∷ []) batch (0 ∷ 0 ∷ [])
Receives-encode_all_example =
    Receives-encode_all batch (frames batch) (0 ∷ 0 ∷ []) batch_sendable
      (encode_all-frames batch [] batch_sendable)

decode-prefix_example :
    Codec.decode (0 ∷ 0 ∷ 0 ∷ 5 ∷ 4 ∷ 0 ∷ []) ≡ ok (none, 0 ∷ 0 ∷ 0 ∷ 5 ∷ 4 ∷ 0 ∷ [])
decode-prefix_example =
    decode-prefix (have 7) (0 ∷ 0 ∷ 0 ∷ 5 ∷ 4 ∷ 0 ∷ []) (0 ∷ 7 ∷ []) 0 (omega arith)
      (unfold Message.wire_len in omega arith)
      (unfold Message.wire_len put_u32 Message.encode in refl)

decode-Reads_example : Reads (4 ∷ 0 ∷ 0 ∷ 0 ∷ 1 ∷ []) (Message.decode (4 ∷ 0 ∷ 0 ∷ 0 ∷ 1 ∷ []))
decode-Reads_example = decode-Reads (4 ∷ 0 ∷ 0 ∷ 0 ∷ 1 ∷ []) (omega arith)

abbrev ours : Handshake
ours = record { reserved = replicate 8 0; info_hash = replicate 20 9; peer_id = replicate 20 77 }

ours-IsSized : IsSized ours
ours-IsSized = omega arith

from_bytes-to_bytes_example : from_bytes (to_bytes ours) ≡ ok ours
from_bytes-to_bytes_example = from_bytes-to_bytes ours ours-IsSized

ours_size : length (to_bytes ours) ≡ 68
unfolding to_bytes
ours_size = refl

to_bytes-from_bytes_example : to_bytes ours ≡ to_bytes ours
to_bytes-from_bytes_example =
    to_bytes-from_bytes (to_bytes ours) ours ours_size (from_bytes-to_bytes ours ours-IsSized)
