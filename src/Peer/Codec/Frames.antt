-- ===== src/Peer/Codec/Frames.antt =====
-- src/peer/codec.rs: a stream of frames is read back one message at a time, and a frame that has
-- not arrived in full is left alone.
use moviehouse.Prelude.{
  ℕ, ◌+◌, ◌%◌, ◌^◌, ◌/◌, ◌≤◌, ◌<◌, List, [], ◌∷◌, ◌++◌, append_assoc, append-nil, Outcome, some,
  ◌≡◌, refl, ap, arith, length, drop, length-append, take-append, drop-append, ok, ltb, ◌>>=◌,
  put_u32, u32_from_be, false,
}
use moviehouse.Peer.Message
use moviehouse.Peer.Message.{PeerMessage, wire_len}
use moviehouse.Peer.Message.RoundTrip.{IsSendable, decode-encode, wire_len-encode}
use moviehouse.Peer.Codec.{
  PeerCodecError, decode, encode, decode_frame, payload_message, max_frame_size,
}

-- The bytes of one frame.
abbrev pub frame : PeerMessage → List ℕ
frame msg = put_u32 (wire_len msg) ++ Message.encode msg

-- The prefix of the frame is the length of the payload.
decode-put_u32 :
    (n : ℕ) (rest : List ℕ)
    → n < 2 ^ 32
    → decode (put_u32 n ++ rest) ≡ decode_frame (put_u32 n ++ rest) n
unfolding decode put_u32
decode-put_u32 n rest h =
    let e : u32_from_be (n / 2 ^ 24 % 256) (n / 2 ^ 16 % 256) (n / 2 ^ 8 % 256) (n % 256) ≡ n =
      (unfold u32_from_be in omega arith) in
    ap (decode_frame (put_u32 n ++ rest)) e

drop-put_u32 : (n : ℕ) (rest : List ℕ) → drop 4 (put_u32 n ++ rest) ≡ rest
unfolding put_u32
drop-put_u32 n rest = refl

length-put_u32 : (n : ℕ) (rest : List ℕ) → length (put_u32 n ++ rest) ≡ 4 + length rest
unfolding put_u32
length-put_u32 n rest = omega arith

decode_frame_lem :
    (msg : PeerMessage) (len : ℕ) (payload rest : List ℕ)
    → len ≡ length payload
    → Message.decode payload ≡ ok (msg, [])
    → len ≤ max_frame_size
    → decode_frame (put_u32 len ++ (payload ++ rest)) len ≡ ok (some msg, rest)
unfolding decode_frame payload_message
decode_frame_lem msg len payload rest e d h =
    let src = put_u32 len ++ (payload ++ rest) in
    let fits : ltb max_frame_size len ≡ false = ground arith in
    let whole : ltb (length src) (4 + len) ≡ false =
      ground (arith, length-put_u32 len (payload ++ rest), length-append payload rest) in
    simp (fits, whole, drop-put_u32 len (payload ++ rest))
      (rw e (simp (take-append payload rest, drop-append payload rest, d)))

-- A frame in front of any bytes is read as its message, and those bytes are left.
pub decode-frame :
    (msg : PeerMessage) (rest : List ℕ)
    → IsSendable msg
    → wire_len msg ≤ max_frame_size
    → decode (frame msg ++ rest) ≡ ok (some msg, rest)
decode-frame msg rest h fits =
    rw (append_assoc (put_u32 (wire_len msg)) (Message.encode msg) rest) (
      rw (decode-put_u32 (wire_len msg) (Message.encode msg ++ rest) (omega arith)) (
        decode_frame_lem msg (wire_len msg) (Message.encode msg) rest (wire_len-encode msg h)
          (decode-encode msg h) fits))

-- The bytes of several frames, one behind the other.
abbrev pub frames : List PeerMessage → List ℕ
frames [] = []
frames (msg ∷ msgs) = frame msg ++ frames msgs

abbrev pub AllSendable : List PeerMessage → Type 0
AllSendable [] = Unit
AllSendable (msg ∷ msgs) = IsSendable msg × (wire_len msg ≤ max_frame_size) × AllSendable msgs

-- The calls of `encode` with which a sender fills its buffer.
pub encode_all : List PeerMessage → List ℕ → Outcome PeerCodecError (List ℕ)
encode_all [] dst = ok dst
encode_all (msg ∷ msgs) dst = encode msg dst >>= encode_all msgs

-- The calls of `decode` with which a receiver empties its buffer: `src` gives the messages and
-- leaves `rest`.
pub data Receives : List ℕ → List PeerMessage → List ℕ → Type 0 where
  done : {src : List ℕ} → Receives src [] src
  next :
      {src src' rest : List ℕ} {msg : PeerMessage} {msgs : List PeerMessage}
      → decode src ≡ ok (some msg, src')
      → Receives src' msgs rest
      → Receives src (msg ∷ msgs) rest

encode-frame :
    (msg : PeerMessage) (dst : List ℕ)
    → wire_len msg ≤ max_frame_size
    → encode msg dst ≡ ok (dst ++ frame msg)
unfolding encode
encode-frame msg dst h =
    let fits : ltb max_frame_size (wire_len msg) ≡ false = ground arith in
    let word : wire_len msg % 2 ^ 32 ≡ wire_len msg = omega arith in simp (fits, word)

pub encode_all-frames :
    (msgs : List PeerMessage) (dst : List ℕ)
    → AllSendable msgs
    → encode_all msgs dst ≡ ok (dst ++ frames msgs)
unfolding encode_all
encode_all-frames [] dst h = rw append-nil
encode_all-frames (msg ∷ msgs) dst h = rw (encode-frame msg dst h.1) (
    rw (← append_assoc dst (frame msg) (frames msgs))
      (encode_all-frames msgs (dst ++ frame msg) h.2))

pub Receives-frames :
    (msgs : List PeerMessage) (rest : List ℕ)
    → AllSendable msgs
    → Receives (frames msgs ++ rest) msgs rest
Receives-frames [] rest h = done
Receives-frames (msg ∷ msgs) rest h =
    rw (append_assoc (frame msg) (frames msgs) rest)
      (next (decode-frame msg (frames msgs ++ rest) h.0 h.1) (Receives-frames msgs rest h.2))

-- Whatever messages a sender puts into an empty buffer, a receiver takes out of it one by one, in
-- order, and leaves exactly the bytes that came behind them. Each message is one that the program
-- sends and fits a frame.
pub Receives-encode_all :
    (msgs : List PeerMessage) (out rest : List ℕ)
    → AllSendable msgs
    → encode_all msgs [] ≡ ok out
    → Receives (out ++ rest) msgs rest
Receives-encode_all msgs out rest h sent =
    let e : frames msgs ≡ out = cc (encode_all-frames msgs [] h, sent) in
    rw (← e) (Receives-frames msgs rest h)
