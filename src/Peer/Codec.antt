-- ===== src/Peer/Codec.antt =====
-- src/peer/codec.rs: frames, a four-byte length and a message.
pub mod Frames
pub mod Partial
use moviehouse.Prelude.{
  ℕ, ◌+◌, ◌%◌, ◌^◌, List, ◌∷◌, ◌++◌, Option, none, some, ltb, if◌then◌else◌, length, take, drop,
  Outcome, ok, err, out_of_fuel, put_u32, u32_from_be,
}
use moviehouse.Peer.Message
use moviehouse.Peer.Message.{PeerMessage, PeerMessageError}

-- 1 MiB
abbrev pub max_frame_size : ℕ
max_frame_size = 2 ^ 20

pub data PeerCodecError : Type 0 where
  frame_too_large : ℕ → PeerCodecError
  message : PeerMessageError → PeerCodecError

-- `PeerMessage::decode(&mut payload).map_err(PeerCodecError::Message)?`; the rest of the payload is
-- dropped with it.
unfoldable pub payload_message :
    List ℕ → Message.Decoded → Outcome PeerCodecError (Option PeerMessage × List ℕ)
payload_message src (ok (msg, _)) = ok (some msg, src)
payload_message src (err e) = err (message e)
payload_message src out_of_fuel = out_of_fuel

-- The frame of the announced length, where `src` holds the four bytes of the prefix.
unfoldable pub decode_frame : List ℕ → ℕ → Outcome PeerCodecError (Option PeerMessage × List ℕ)
unfolding payload_message
decode_frame src len =
    if ltb max_frame_size len
    then err (frame_too_large len)
    else if ltb (length src) (4 + len)
    then ok (none, src)
    else payload_message (drop len (drop 4 src)) (Message.decode (take len (drop 4 src)))

-- `decode` returns the message, if there is one, and what it leaves in `src`.
unfoldable pub decode : List ℕ → Outcome PeerCodecError (Option PeerMessage × List ℕ)
unfolding decode_frame
decode (a ∷ b ∷ c ∷ d ∷ rest) = decode_frame (a ∷ b ∷ c ∷ d ∷ rest) (u32_from_be a b c d)
decode src = ok (none, src)

unfoldable pub encode : PeerMessage → List ℕ → Outcome PeerCodecError (List ℕ)
encode msg dst =
    let len = Message.wire_len msg in
    if ltb max_frame_size len
    then err (frame_too_large len)
    else ok (dst ++ (put_u32 (len % 2 ^ 32) ++ Message.encode msg))
